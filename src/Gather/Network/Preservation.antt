-- ===== src/Gather/Network/Preservation.antt =====
-- Each step keeps the invariant.
use mathlib.Core.Path.{subst}
use awesome_patterns.Base.{
  ℕ, zero, suc, ◌≡◌, refl, sym, ap, List, [], ◌∷◌, ◌++◌, Option, none, some, arith, length-append,
  get_elem?, total, total-snoc,
}
use awesome_patterns.Channel.{try_receive}
use awesome_patterns.Gather.{Evaluated}
use awesome_patterns.Gather.Network.{
  Task, MainPc, gathering, returned, State, Outcome, moves, Action, evaluate_task, select_result,
  select_error, time_out, deliver, gather_result, gather_error, end_gather, on_gather,
  on_gather_error, on_return, of_task, step, Reach, start, later,
}
use awesome_patterns.Gather.Network.Invariant.{rounds_left, Inv, new-Inv}
use awesome_patterns.Gather.Network.Tasks.{
  on_evaluate-Inv, on_select-Inv, on_select_error-Inv, on_timeout-Inv, on_deliver-Inv,
}

module _ {R E : Type 0} (evaluate : ℕ → Evaluated R E) (timeout : ℕ → E) where
  module _ (n : ℕ) (s : State R E) (v : Inv evaluate timeout n s) where
    gathered-Inv :
        (k : ℕ) (rs : List R) {s' : State R E}
        → s.main ≡ gathering (suc k)
        → s.channels.gather.buffer ≡ rs
        → on_gather s (gathering (suc k)) ≡ moves s'
        → Inv evaluate timeout n s'
    unfolding on_gather try_receive
    gathered-Inv k [] f b h = absurd (ground (arith, b, h))
    gathered-Inv k (r ∷ rs) f b h =
        let c = record (s.channels.gather) { buffer = rs } in
        let q = record s {
          channels = record (s.channels) { gather = c };
          main = gathering k;
          out = s.out ++ r ∷ [];
        } in
        subst (Inv evaluate timeout n) {x = q} (ground (arith, b, h)) (record {
          size = v.size;
          gather_open = v.gather_open;
          errors_open = v.errors_open;
          gather_room = v.gather_room;
          errors_room = v.errors_room;
          each = v.each;
          gathered = λ w. omega (arith, v.gathered w, ap (total w) b, total-snoc w s.out r);
          gathered_errors = v.gathered_errors;
          rounds = omega (arith, v.rounds, ap rounds_left f, length-append s.out (r ∷ []));
        })

    gathered_error-Inv :
        (k : ℕ) (es : List E) {s' : State R E}
        → s.main ≡ gathering (suc k)
        → s.channels.errors.buffer ≡ es
        → on_gather_error s (gathering (suc k)) ≡ moves s'
        → Inv evaluate timeout n s'
    unfolding on_gather_error try_receive
    gathered_error-Inv k [] f b h = absurd (ground (arith, b, h))
    gathered_error-Inv k (e ∷ es) f b h =
        let c = record (s.channels.errors) { buffer = es } in
        let q = record s {
          channels = record (s.channels) { errors = c };
          main = gathering k;
          errs = s.errs ++ e ∷ [];
        } in
        subst (Inv evaluate timeout n) {x = q} (ground (arith, b, h)) (record {
          size = v.size;
          gather_open = v.gather_open;
          errors_open = v.errors_open;
          gather_room = v.gather_room;
          errors_room = v.errors_room;
          each = v.each;
          gathered = v.gathered;
          gathered_errors =
              λ w. omega (arith, v.gathered_errors w, ap (total w) b, total-snoc w s.errs e);
          rounds = omega (arith, v.rounds, ap rounds_left f, length-append s.errs (e ∷ []));
        })

    on_gather-Inv :
        (m : MainPc) {s' : State R E}
        → s.main ≡ m
        → on_gather s m ≡ moves s'
        → Inv evaluate timeout n s'
    unfolding on_gather
    on_gather-Inv (gathering zero) f h = cc
    on_gather-Inv (gathering (suc k)) f h = gathered-Inv k s.channels.gather.buffer f refl h
    on_gather-Inv returned f h = cc

    on_gather_error-Inv :
        (m : MainPc) {s' : State R E}
        → s.main ≡ m
        → on_gather_error s m ≡ moves s'
        → Inv evaluate timeout n s'
    unfolding on_gather_error
    on_gather_error-Inv (gathering zero) f h = cc
    on_gather_error-Inv (gathering (suc k)) f h =
        gathered_error-Inv k s.channels.errors.buffer f refl h
    on_gather_error-Inv returned f h = cc

    on_return-Inv :
        (m : MainPc) {s' : State R E}
        → s.main ≡ m
        → on_return s m ≡ moves s'
        → Inv evaluate timeout n s'
    unfolding on_return
    on_return-Inv (gathering zero) f h =
        subst (Inv evaluate timeout n) {x = record s { main = returned }} (cc) (record {
          size = v.size;
          gather_open = v.gather_open;
          errors_open = v.errors_open;
          gather_room = v.gather_room;
          errors_room = v.errors_room;
          each = v.each;
          gathered = v.gathered;
          gathered_errors = v.gathered_errors;
          rounds = omega (arith, v.rounds, ap rounds_left f);
        })
    on_return-Inv (gathering (suc k)) f h = cc
    on_return-Inv returned f h = cc

    of_task-Inv :
        (f : Task R E → Outcome R E) (o : Option (Task R E)) {s' : State R E}
        → ((t : Task R E) → o ≡ some t → f t ≡ moves s' → Inv evaluate timeout n s')
        → of_task f o ≡ moves s'
        → Inv evaluate timeout n s'
    unfolding of_task
    of_task-Inv f none k h = cc
    of_task-Inv f (some t) k h = k t refl h

    pub step-Inv :
        (a : Action) {s' : State R E}
        → step evaluate timeout s a ≡ moves s'
        → Inv evaluate timeout n s'
    unfolding step
    step-Inv (evaluate_task i) h =
        of_task-Inv _ (get_elem? s.tasks i)
          (λ t g e. on_evaluate-Inv evaluate timeout n s v i t t.inner g refl e) h
    step-Inv (select_result i) h =
        of_task-Inv _ (get_elem? s.tasks i)
          (λ t g e. on_select-Inv evaluate timeout n s v i t t.outer g refl e) h
    step-Inv (select_error i) h =
        of_task-Inv _ (get_elem? s.tasks i)
          (λ t g e. on_select_error-Inv evaluate timeout n s v i t t.outer g refl e) h
    step-Inv (time_out i) h =
        of_task-Inv _ (get_elem? s.tasks i)
          (λ t g e. on_timeout-Inv evaluate timeout n s v i t t.outer g refl e) h
    step-Inv (deliver i) h =
        of_task-Inv _ (get_elem? s.tasks i)
          (λ t g e. on_deliver-Inv evaluate timeout n s v i t t.outer g refl e) h
    step-Inv gather_result h = on_gather-Inv s.main refl h
    step-Inv gather_error h = on_gather_error-Inv s.main refl h
    step-Inv end_gather h = on_return-Inv s.main refl h

  pub Reach-Inv : {n : ℕ} {s : State R E} → Reach evaluate timeout n s → Inv evaluate timeout n s
  Reach-Inv {n} (start e) = subst (Inv evaluate timeout n) (sym e) (new-Inv evaluate timeout n)
  Reach-Inv {n} (later {s = s} r a h) = step-Inv n s (Reach-Inv r) a h
