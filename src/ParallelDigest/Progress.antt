-- ===== src/ParallelDigest/Progress.antt =====
-- Each step of the goroutines leaves less to do.
use awesome_patterns.Base.{
  ℕ, ◌+◌, ◌*◌, ◌≡◌, ◌<◌, refl, ap, [], ◌∷◌, Option, none, some, arith, length, get_elem?, total,
  total-set, total-snoc,
}
use awesome_patterns.BoundedDigest.{Error, failed, other, file}
use awesome_patterns.ParallelDigest.{
  WalkPc, walking, checking, walked, reporting, ended, SummerPc, holding, finished, gone, CloserPc,
  not_started, waiting, closed, MainPc, collecting, awaiting, returned, State, Event, moves,
  on_visit, on_walk_end, on_cancel, on_count, on_close, on_main, on_result, sum_file, on_deliver,
  Action, visit, end_walk, deliver, cancel, count_down, close_results, continue_main, step,
}

abbrev pub walk_work : WalkPc → ℕ
walk_work (walking vs) = 4 * length vs + 4
walk_work (checking vs) = 4 * length vs + 5
walk_work (walked e) = 3
walk_work (reporting e) = 1
walk_work ended = 0

abbrev pub summer_work : SummerPc → ℕ
summer_work gone = 0
summer_work finished = 1
summer_work (holding p) = 2

abbrev pub closer_work : CloserPc → ℕ
closer_work not_started = 1
closer_work waiting = 1
closer_work closed = 0

abbrev pub main_work : MainPc → ℕ
main_work collecting = 2
main_work awaiting = 1
main_work (returned e) = 0

abbrev pub work_left : {S : Type 0} → State S → ℕ
work_left s =
    walk_work s.walk + total summer_work s.summers + main_work s.main + closer_work s.closer

module _ {S : Type 0} (s : State S) where
  on_visit-lt :
      (w : WalkPc) {s' : State S} {e : Event}
      → s.walk ≡ w
      → on_visit s w ≡ moves s' e
      → work_left s' < work_left s
  unfolding on_visit
  on_visit-lt (walking []) f h = ground (arith, ap walk_work f)
  on_visit-lt (walking (failed x ∷ vs)) f h = ground (arith, ap walk_work f)
  on_visit-lt (walking (other ∷ vs)) f h = ground (arith, ap walk_work f)
  on_visit-lt (walking (file p ∷ vs)) f h =
      ground (arith, ap walk_work f, total-snoc summer_work s.summers (holding p))
  on_visit-lt (checking vs) f h = ground (arith, ap walk_work f)
  on_visit-lt (walked x) f h = cc
  on_visit-lt (reporting x) f h = cc
  on_visit-lt ended f h = cc

  on_walk_end-lt :
      (w : WalkPc) (o : Option Error) {s' : State S} {e : Event}
      → s.walk ≡ w
      → on_walk_end s w o ≡ moves s' e
      → work_left s' < work_left s
  unfolding on_walk_end
  on_walk_end-lt (walked x) o f h = ground (arith, ap walk_work f)
  on_walk_end-lt (reporting x) none f h = ground (arith, ap walk_work f)
  on_walk_end-lt (reporting x) (some y) f h = cc
  on_walk_end-lt (walking vs) o f h = cc
  on_walk_end-lt (checking vs) o f h = cc
  on_walk_end-lt ended o f h = cc

  on_cancel-lt :
      (j : ℕ) (o : Option SummerPc) {s' : State S} {e : Event}
      → get_elem? s.summers j ≡ o
      → on_cancel s j o ≡ moves s' e
      → work_left s' < work_left s
  unfolding on_cancel
  on_cancel-lt j (some (holding p)) g h =
      ground (arith, total-set summer_work s.summers j finished g)
  on_cancel-lt j (some finished) g h = cc
  on_cancel-lt j (some gone) g h = cc
  on_cancel-lt j none g h = cc

  on_count-lt :
      (j : ℕ) (o : Option SummerPc) {s' : State S} {e : Event}
      → get_elem? s.summers j ≡ o
      → on_count s j o ≡ moves s' e
      → work_left s' < work_left s
  unfolding on_count
  on_count-lt j (some finished) g h = ground (arith, total-set summer_work s.summers j gone g)
  on_count-lt j (some (holding p)) g h = cc
  on_count-lt j (some gone) g h = cc
  on_count-lt j none g h = cc

  on_close-lt :
      (c : CloserPc) {s' : State S} {e : Event}
      → s.closer ≡ c
      → on_close s c ≡ moves s' e
      → work_left s' < work_left s
  unfolding on_close
  on_close-lt waiting f h = ground (arith, ap closer_work f)
  on_close-lt not_started f h = cc
  on_close-lt closed f h = cc

  on_main-lt :
      (m : MainPc) (o : Option Error) {s' : State S} {e : Event}
      → s.main ≡ m
      → on_main s m o ≡ moves s' e
      → work_left s' < work_left s
  unfolding on_main
  on_main-lt collecting o f h = ground (arith, ap main_work f)
  on_main-lt awaiting (some x) f h = ground (arith, ap main_work f)
  on_main-lt awaiting none f h = cc
  on_main-lt (returned x) o f h = cc

  module _ {B : Type 0} (read_file : ℕ → B × Error) (md5_sum : B → S) where
    result-lt :
        (j p : ℕ) (x : Error) {s' : State S} {e : Event}
        → get_elem? s.summers j ≡ some (holding p)
        → s.main ≡ collecting
        → (read_file p).1 ≡ x
        → on_deliver read_file md5_sum s j (some (holding p)) collecting ≡ moves s' e
        → work_left s' < work_left s
    unfolding on_deliver on_result sum_file
    result-lt j p none g f r h =
        ground (arith, r, ap main_work f, total-set summer_work s.summers j finished g)
    result-lt j p (some x) g f r h =
        ground (arith, r, ap main_work f, total-set summer_work s.summers j finished g)

    on_deliver-lt :
        (j : ℕ) (o : Option SummerPc) (m : MainPc) {s' : State S} {e : Event}
        → get_elem? s.summers j ≡ o
        → s.main ≡ m
        → on_deliver read_file md5_sum s j o m ≡ moves s' e
        → work_left s' < work_left s
    unfolding on_deliver
    on_deliver-lt j (some (holding p)) collecting g f h = result-lt j p (read_file p).1 g f refl h
    on_deliver-lt j (some (holding p)) awaiting g f h = absurd (ground arith)
    on_deliver-lt j (some (holding p)) (returned x) g f h = absurd (ground arith)
    on_deliver-lt j (some finished) m g f h = cc
    on_deliver-lt j (some gone) m g f h = cc
    on_deliver-lt j none m g f h = cc

    pub step-lt :
        (a : Action) {s' : State S} {e : Event}
        → step read_file md5_sum s a ≡ moves s' e
        → work_left s' < work_left s
    unfolding step
    step-lt visit h = on_visit-lt s.walk refl h
    step-lt end_walk h = on_walk_end-lt s.walk s.errc refl h
    step-lt (deliver j) h = on_deliver-lt j (get_elem? s.summers j) s.main refl refl h
    step-lt (cancel j) h = on_cancel-lt j (get_elem? s.summers j) refl h
    step-lt (count_down j) h = on_count-lt j (get_elem? s.summers j) refl h
    step-lt close_results h = on_close-lt s.closer refl h
    step-lt continue_main h = on_main-lt s.main s.errc refl h
