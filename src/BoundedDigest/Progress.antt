-- ===== src/BoundedDigest/Progress.antt =====
-- Each step of the goroutines leaves less to do.
use awesome_patterns.Base.{
  ℕ, ◌+◌, ◌*◌, ◌≡◌, ◌<◌, refl, ap, Bool, true, false, [], ◌∷◌, Option, none, some, arith, length,
  get_elem?, total, total-set,
}
use awesome_patterns.BoundedDigest.{
  Error, failed, other, file, WalkPc, walking, offering, reporting, closing, ended, DigesterPc,
  receiving, holding, finished, gone, MainPc, collecting, awaiting, returned, State, Event, moves,
  on_visit, on_take, on_walk_cancel, on_walk_end, on_finish, on_cancel, on_count, on_close, on_main,
  on_result, digest, on_deliver, Action, visit, take, cancel_walk, end_walk, finish, deliver,
  cancel, count_down, close_results, continue_main, step,
}

abbrev pub walk_work : WalkPc → ℕ
walk_work (walking vs) = 4 * length vs + 3
walk_work (offering p vs) = 4 * length vs + 6
walk_work (reporting e) = 2
walk_work closing = 1
walk_work ended = 0

abbrev pub digester_work : DigesterPc → ℕ
digester_work gone = 0
digester_work finished = 1
digester_work receiving = 2
digester_work (holding p) = 3

abbrev pub main_work : MainPc → ℕ
main_work collecting = 2
main_work awaiting = 1
main_work (returned e) = 0

abbrev pub open_work : Bool → ℕ
open_work false = 1
open_work true = 0

abbrev pub work_left : {S : Type 0} → State S → ℕ
work_left s =
    walk_work s.walk + total digester_work s.digesters + main_work s.main + open_work s.c_closed

module _ {S : Type 0} (s : State S) where
  on_visit-lt :
      (w : WalkPc) {s' : State S} {e : Event}
      → s.walk ≡ w
      → on_visit s w ≡ moves s' e
      → work_left s' < work_left s
  unfolding on_visit
  on_visit-lt (walking []) f h = ground (arith, ap walk_work f)
  on_visit-lt (walking (failed x ∷ vs)) f h = ground (arith, ap walk_work f)
  on_visit-lt (walking (other ∷ vs)) f h = ground (arith, ap walk_work f)
  on_visit-lt (walking (file p ∷ vs)) f h = ground (arith, ap walk_work f)
  on_visit-lt (offering p vs) f h = cc
  on_visit-lt (reporting x) f h = cc
  on_visit-lt closing f h = cc
  on_visit-lt ended f h = cc

  on_take-lt :
      (j : ℕ) (w : WalkPc) (o : Option DigesterPc) {s' : State S} {e : Event}
      → s.walk ≡ w
      → get_elem? s.digesters j ≡ o
      → on_take s j w o ≡ moves s' e
      → work_left s' < work_left s
  unfolding on_take
  on_take-lt j (offering p vs) (some receiving) f g h =
      ground (arith, ap walk_work f, total-set digester_work s.digesters j (holding p) g)
  on_take-lt j (offering p vs) (some (holding _)) f g h = cc
  on_take-lt j (offering p vs) (some finished) f g h = cc
  on_take-lt j (offering p vs) (some gone) f g h = cc
  on_take-lt j (offering p vs) none f g h = cc
  on_take-lt j (walking vs) o f g h = cc
  on_take-lt j (reporting x) o f g h = cc
  on_take-lt j closing o f g h = cc
  on_take-lt j ended o f g h = cc

  on_walk_cancel-lt :
      (w : WalkPc) {s' : State S} {e : Event}
      → s.walk ≡ w
      → on_walk_cancel s w ≡ moves s' e
      → work_left s' < work_left s
  unfolding on_walk_cancel
  on_walk_cancel-lt (offering p vs) f h = ground (arith, ap walk_work f)
  on_walk_cancel-lt (walking vs) f h = cc
  on_walk_cancel-lt (reporting x) f h = cc
  on_walk_cancel-lt closing f h = cc
  on_walk_cancel-lt ended f h = cc

  on_walk_end-lt :
      (w : WalkPc) (o : Option Error) {s' : State S} {e : Event}
      → s.walk ≡ w
      → on_walk_end s w o ≡ moves s' e
      → work_left s' < work_left s
  unfolding on_walk_end
  on_walk_end-lt (reporting x) none f h = ground (arith, ap walk_work f)
  on_walk_end-lt closing o f h = ground (arith, ap walk_work f)
  on_walk_end-lt (reporting x) (some y) f h = cc
  on_walk_end-lt (walking vs) o f h = cc
  on_walk_end-lt (offering p vs) o f h = cc
  on_walk_end-lt ended o f h = cc

  on_finish-lt :
      (j : ℕ) (o : Option DigesterPc) {s' : State S} {e : Event}
      → get_elem? s.digesters j ≡ o
      → on_finish s j o ≡ moves s' e
      → work_left s' < work_left s
  unfolding on_finish
  on_finish-lt j (some receiving) g h =
      ground (arith, total-set digester_work s.digesters j finished g)
  on_finish-lt j (some (holding p)) g h = cc
  on_finish-lt j (some finished) g h = cc
  on_finish-lt j (some gone) g h = cc
  on_finish-lt j none g h = cc

  on_cancel-lt :
      (j : ℕ) (o : Option DigesterPc) {s' : State S} {e : Event}
      → get_elem? s.digesters j ≡ o
      → on_cancel s j o ≡ moves s' e
      → work_left s' < work_left s
  unfolding on_cancel
  on_cancel-lt j (some (holding p)) g h =
      ground (arith, total-set digester_work s.digesters j finished g)
  on_cancel-lt j (some receiving) g h = cc
  on_cancel-lt j (some finished) g h = cc
  on_cancel-lt j (some gone) g h = cc
  on_cancel-lt j none g h = cc

  on_count-lt :
      (j : ℕ) (o : Option DigesterPc) {s' : State S} {e : Event}
      → get_elem? s.digesters j ≡ o
      → on_count s j o ≡ moves s' e
      → work_left s' < work_left s
  unfolding on_count
  on_count-lt j (some finished) g h = ground (arith, total-set digester_work s.digesters j gone g)
  on_count-lt j (some receiving) g h = cc
  on_count-lt j (some (holding p)) g h = cc
  on_count-lt j (some gone) g h = cc
  on_count-lt j none g h = cc

  on_close-lt : {s' : State S} {e : Event} → on_close s ≡ moves s' e → work_left s' < work_left s
  unfolding on_close
  on_close-lt h = ground arith

  on_main-lt :
      (m : MainPc) (o : Option Error) {s' : State S} {e : Event}
      → s.main ≡ m
      → on_main s m o ≡ moves s' e
      → work_left s' < work_left s
  unfolding on_main
  on_main-lt collecting o f h = ground (arith, ap main_work f)
  on_main-lt awaiting (some x) f h = ground (arith, ap main_work f)
  on_main-lt awaiting none f h = cc
  on_main-lt (returned x) o f h = cc

  module _ {B : Type 0} (read_file : ℕ → B × Error) (md5_sum : B → S) where
    result-lt :
        (j p : ℕ) (x : Error) {s' : State S} {e : Event}
        → get_elem? s.digesters j ≡ some (holding p)
        → s.main ≡ collecting
        → (read_file p).1 ≡ x
        → on_deliver read_file md5_sum s j (some (holding p)) collecting ≡ moves s' e
        → work_left s' < work_left s
    unfolding on_deliver on_result digest
    result-lt j p none g f r h =
        ground (arith, r, ap main_work f, total-set digester_work s.digesters j receiving g)
    result-lt j p (some x) g f r h =
        ground (arith, r, ap main_work f, total-set digester_work s.digesters j receiving g)

    on_deliver-lt :
        (j : ℕ) (o : Option DigesterPc) (m : MainPc) {s' : State S} {e : Event}
        → get_elem? s.digesters j ≡ o
        → s.main ≡ m
        → on_deliver read_file md5_sum s j o m ≡ moves s' e
        → work_left s' < work_left s
    unfolding on_deliver
    on_deliver-lt j (some (holding p)) collecting g f h = result-lt j p (read_file p).1 g f refl h
    on_deliver-lt j (some (holding p)) awaiting g f h = absurd (ground arith)
    on_deliver-lt j (some (holding p)) (returned x) g f h = absurd (ground arith)
    on_deliver-lt j (some receiving) m g f h = cc
    on_deliver-lt j (some finished) m g f h = cc
    on_deliver-lt j (some gone) m g f h = cc
    on_deliver-lt j none m g f h = cc

    pub step-lt :
        (a : Action) {s' : State S} {e : Event}
        → step read_file md5_sum s a ≡ moves s' e
        → work_left s' < work_left s
    unfolding step
    step-lt visit h = on_visit-lt s.walk refl h
    step-lt (take j) h = on_take-lt j s.walk (get_elem? s.digesters j) refl refl h
    step-lt cancel_walk h = on_walk_cancel-lt s.walk refl h
    step-lt end_walk h = on_walk_end-lt s.walk s.errc refl h
    step-lt (finish j) h = on_finish-lt j (get_elem? s.digesters j) refl h
    step-lt (deliver j) h = on_deliver-lt j (get_elem? s.digesters j) s.main refl refl h
    step-lt (cancel j) h = on_cancel-lt j (get_elem? s.digesters j) refl h
    step-lt (count_down j) h = on_count-lt j (get_elem? s.digesters j) refl h
    step-lt close_results h = on_close-lt h
    step-lt continue_main h = on_main-lt s.main s.errc refl h
