-- ===== src/Gather/Network/Progress.antt =====
-- `DivideAndConquer` returns, and leaves no goroutine behind.
use awesome_patterns.Base.{
  ℕ, zero, suc, ◌+◌, ◌≡◌, ◌<◌, refl, ap, List, [], ◌∷◌, ◌++◌, Option, none, some, arith, get_elem?,
  total, total-set,
}
use awesome_patterns.Channel.{try_send, try_receive}
use awesome_patterns.Gather.{Evaluated, result, failed, send}
use awesome_patterns.Gather.Network.{
  InnerPc, evaluating, stored, OuterPc, selecting, sending, gone, Task, MainPc, gathering, returned,
  State, Outcome, moves, Action, evaluate_task, select_result, select_error, time_out, deliver,
  gather_result, gather_error, end_gather, store, on_evaluate, on_select, on_select_error,
  on_timeout, on_deliver, on_gather, on_gather_error, on_return, of_task, step,
}

abbrev pub inner_work : InnerPc → ℕ
inner_work evaluating = 1
inner_work stored = 0

module _ {R E : Type 0} where
  abbrev pub outer_work : OuterPc R E → ℕ
  outer_work selecting = 2
  outer_work (sending v) = 1
  outer_work (gone v) = 0

  abbrev pub task_work : Task R E → ℕ
  task_work t = inner_work t.inner + outer_work t.outer

abbrev pub main_work : MainPc → ℕ
main_work (gathering k) = k + 1
main_work returned = 0

module _ {R E : Type 0} (s : State R E) where
  abbrev pub work_left : ℕ
  work_left = total task_work s.tasks + main_work s.main

module _ {R E : Type 0} (s : State R E) where
  store-lt :
      (i : ℕ) (t : Task R E) (x : Evaluated R E) {s' : State R E}
      → get_elem? s.tasks i ≡ some t
      → t.inner ≡ evaluating
      → store s i t x ≡ moves s'
      → work_left s' < work_left s
  unfolding store try_send
  store-lt i t (result r) g f h =
      let t' = record t { inner = stored; ch = record (t.ch) { buffer = t.ch.buffer ++ r ∷ [] } } in
      ground (arith, ap inner_work f, total-set task_work s.tasks i t' g)
  store-lt i t (failed e) g f h =
      let t' = record t {
        inner = stored;
        ech = record (t.ech) { buffer = t.ech.buffer ++ e ∷ [] };
      } in
      ground (arith, ap inner_work f, total-set task_work s.tasks i t' g)

  on_evaluate-lt :
      (i : ℕ) (x : Evaluated R E) (t : Task R E) (c : InnerPc) {s' : State R E}
      → get_elem? s.tasks i ≡ some t
      → t.inner ≡ c
      → on_evaluate s i x t c ≡ moves s'
      → work_left s' < work_left s
  unfolding on_evaluate
  on_evaluate-lt i x t evaluating g f h = store-lt i t x g f h
  on_evaluate-lt i x t stored g f h = cc

  on_select-lt :
      (i : ℕ) (t : Task R E) (c : OuterPc R E) (rs : List R) {s' : State R E}
      → get_elem? s.tasks i ≡ some t
      → t.outer ≡ c
      → t.ch.buffer ≡ rs
      → on_select s i t c ≡ moves s'
      → work_left s' < work_left s
  unfolding on_select try_receive
  on_select-lt i t selecting [] g f b h = absurd (ground (arith, b, h))
  on_select-lt i t selecting (r ∷ rs) g f b h =
      let t' = record t { ch = record (t.ch) { buffer = rs }; outer = sending (result r) } in
      ground (arith, b, ap outer_work f, total-set task_work s.tasks i t' g)
  on_select-lt i t (sending x) rs g f b h = cc
  on_select-lt i t (gone x) rs g f b h = cc

  on_select_error-lt :
      (i : ℕ) (t : Task R E) (c : OuterPc R E) (es : List E) {s' : State R E}
      → get_elem? s.tasks i ≡ some t
      → t.outer ≡ c
      → t.ech.buffer ≡ es
      → on_select_error s i t c ≡ moves s'
      → work_left s' < work_left s
  unfolding on_select_error try_receive
  on_select_error-lt i t selecting [] g f b h = absurd (ground (arith, b, h))
  on_select_error-lt i t selecting (e ∷ es) g f b h =
      let t' = record t { ech = record (t.ech) { buffer = es }; outer = sending (failed e) } in
      ground (arith, b, ap outer_work f, total-set task_work s.tasks i t' g)
  on_select_error-lt i t (sending x) es g f b h = cc
  on_select_error-lt i t (gone x) es g f b h = cc

  on_timeout-lt :
      (i : ℕ) (e : E) (t : Task R E) (c : OuterPc R E) {s' : State R E}
      → get_elem? s.tasks i ≡ some t
      → t.outer ≡ c
      → on_timeout s i e t c ≡ moves s'
      → work_left s' < work_left s
  unfolding on_timeout
  on_timeout-lt i e t selecting g f h =
      let t' = record t { outer = sending (failed e) } in
      ground (arith, ap outer_work f, total-set task_work s.tasks i t' g)
  on_timeout-lt i e t (sending x) g f h = cc
  on_timeout-lt i e t (gone x) g f h = cc

  on_deliver-lt :
      (i : ℕ) (t : Task R E) (c : OuterPc R E) {s' : State R E}
      → get_elem? s.tasks i ≡ some t
      → t.outer ≡ c
      → on_deliver s i t c ≡ moves s'
      → work_left s' < work_left s
  unfolding on_deliver send try_send
  on_deliver-lt i t (sending (result r)) g f h = ground (
    arith,
    ap outer_work f,
    total-set task_work s.tasks i (record t { outer = gone (result r) }) g,
  )
  on_deliver-lt i t (sending (failed e)) g f h = ground (
    arith,
    ap outer_work f,
    total-set task_work s.tasks i (record t { outer = gone (failed e) }) g,
  )
  on_deliver-lt i t selecting g f h = cc
  on_deliver-lt i t (gone x) g f h = cc

  on_gather-lt :
      (m : MainPc) {s' : State R E}
      → s.main ≡ m
      → on_gather s m ≡ moves s'
      → work_left s' < work_left s
  unfolding on_gather
  on_gather-lt (gathering zero) f h = cc
  on_gather-lt (gathering (suc k)) f h = ground (arith, ap main_work f)
  on_gather-lt returned f h = cc

  on_gather_error-lt :
      (m : MainPc) {s' : State R E}
      → s.main ≡ m
      → on_gather_error s m ≡ moves s'
      → work_left s' < work_left s
  unfolding on_gather_error
  on_gather_error-lt (gathering zero) f h = cc
  on_gather_error-lt (gathering (suc k)) f h = ground (arith, ap main_work f)
  on_gather_error-lt returned f h = cc

  on_return-lt :
      (m : MainPc) {s' : State R E}
      → s.main ≡ m
      → on_return s m ≡ moves s'
      → work_left s' < work_left s
  unfolding on_return
  on_return-lt (gathering zero) f h = ground (arith, ap main_work f)
  on_return-lt (gathering (suc k)) f h = cc
  on_return-lt returned f h = cc

  of_task-lt :
      (f : Task R E → Outcome R E) (o : Option (Task R E)) {s' : State R E}
      → ((t : Task R E) → o ≡ some t → f t ≡ moves s' → work_left s' < work_left s)
      → of_task f o ≡ moves s'
      → work_left s' < work_left s
  unfolding of_task
  of_task-lt f none k h = cc
  of_task-lt f (some t) k h = k t refl h

  pub step-lt :
      (evaluate : ℕ → Evaluated R E) (timeout : ℕ → E) (a : Action) {s' : State R E}
      → step evaluate timeout s a ≡ moves s'
      → work_left s' < work_left s
  unfolding step
  step-lt evaluate timeout (evaluate_task i) h =
      of_task-lt _ (get_elem? s.tasks i) (λ t g e. on_evaluate-lt i (evaluate i) t t.inner g refl e)
        h
  step-lt evaluate timeout (select_result i) h =
      of_task-lt _ (get_elem? s.tasks i)
        (λ t g e. on_select-lt i t t.outer t.ch.buffer g refl refl e) h
  step-lt evaluate timeout (select_error i) h =
      of_task-lt _ (get_elem? s.tasks i)
        (λ t g e. on_select_error-lt i t t.outer t.ech.buffer g refl refl e) h
  step-lt evaluate timeout (time_out i) h =
      of_task-lt _ (get_elem? s.tasks i) (λ t g e. on_timeout-lt i (timeout i) t t.outer g refl e) h
  step-lt evaluate timeout (deliver i) h =
      of_task-lt _ (get_elem? s.tasks i) (λ t g e. on_deliver-lt i t t.outer g refl e) h
  step-lt evaluate timeout gather_result h = on_gather-lt s.main refl h
  step-lt evaluate timeout gather_error h = on_gather_error-lt s.main refl h
  step-lt evaluate timeout end_gather h = on_return-lt s.main refl h
