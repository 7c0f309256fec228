-- ===== src/ParallelDigest/Invariant.antt =====
-- How the goroutines of `MD5All` stand to one another in every reachable state.
use mathlib.Core.Path.{subst}
use awesome_patterns.Base.{
  ℕ, ◌≡◌, ◌≢◌, refl, sym, ap, ◌∙◌, Bool, true, false, List, [], ◌∷◌, ◌++◌, Option, none, some,
  arith, ◌==◌, if◌then◌else◌, get_elem?, set, total, total-get_elem?,
}
use awesome_patterns.BoundedDigest.{Error, Visit, failed, other, file}
use awesome_patterns.ParallelDigest.{
  WalkPc, walking, checking, walked, reporting, ended, SummerPc, holding, finished, gone, CloserPc,
  not_started, waiting, closed, MainPc, collecting, awaiting, returned, State, Event, moves,
  is_closed, all_gone, new, on_visit, on_walk_end, on_cancel, on_count, on_close, on_main,
  on_result, sum_file, on_deliver, Action, visit, end_walk, deliver, cancel, count_down,
  close_results, continue_main, step, Reach, start, later,
}

-- A goroutine of a file that still counts.
abbrev pub is_here : SummerPc → ℕ
is_here gone = 0
is_here _ = 1

abbrev pub is_started : CloserPc → Bool
is_started not_started = false
is_started _ = true

-- The walk starts no goroutine any more.
abbrev pub is_past : WalkPc → Bool
is_past (reporting e) = true
is_past ended = true
is_past _ = false

abbrev pub is_sent : WalkPc → Bool
is_sent ended = true
is_sent _ = false

-- What `MD5All` knows where it stands.
abbrev pub Stage : MainPc → (done_closed c_closed : Bool) → Type 0
Stage collecting d c = d ≡ false
Stage awaiting d c = (d ≡ false) × (c ≡ true)
Stage (returned e) d c = d ≡ true

closed-Stage : (m : MainPc) (d c : Bool) → Stage m d c → Stage m d true
closed-Stage collecting d c h = h
closed-Stage awaiting d c h = (h.0, refl)
closed-Stage (returned e) d c h = h

open-Stage : (m : MainPc) (d c c' : Bool) → c ≡ false → Stage m d c → Stage m d c'
open-Stage collecting d c c' e h = h
open-Stage awaiting d c c' e h = cc
open-Stage (returned e) d c c' f h = h

all_gone-total : (ds : List SummerPc) → all_gone ds ≡ true → total is_here ds ≡ 0
unfolding all_gone
all_gone-total [] h = refl
all_gone-total (gone ∷ ds) h = omega (arith, all_gone-total ds h)
all_gone-total (holding p ∷ ds) h = cc
all_gone-total (finished ∷ ds) h = cc

not_closed : (c : CloserPc) → is_started c ≡ false → is_closed c ≡ false
unfolding is_closed
not_closed not_started h = refl
not_closed waiting h = cc
not_closed closed h = cc

module _ {S : Type 0} where
  pub record Inv (s : State S) : Type 0 where
    pub emptied : is_closed s.closer ≡ true → total is_here s.summers ≡ 0
    pub phase : is_started s.closer ≡ is_past s.walk
    pub stage : Stage s.main s.done_closed (is_closed s.closer)
    pub free : is_sent s.walk ≡ false → s.errc ≡ none
    pub sent : is_sent s.walk ≡ true → s.done_closed ≡ false → s.errc ≢ none

  new-Inv : (visits : List Visit) → Inv (new {S = S} visits)
  unfolding new is_closed
  new-Inv visits = record {
    emptied = λ c. refl;
    phase = refl;
    stage = refl;
    free = λ f. refl;
    sent = λ f. cc;
  }

  module _ (s : State S) (v : Inv s) where
    pub Stage-at : {m : MainPc} → s.main ≡ m → Stage m s.done_closed (is_closed s.closer)
    Stage-at f = subst (λ m. Stage m s.done_closed (is_closed s.closer)) f v.stage

    -- While the walk goes on, the closer has not started.
    pub still_open : {w : WalkPc} → s.walk ≡ w → is_past w ≡ false → is_closed s.closer ≡ false
    still_open f a = not_closed s.closer (v.phase ∙ ap is_past f ∙ a)

    -- The walk goes on, and may start a goroutine.
    walks :
        (w w' : WalkPc) (ds : List SummerPc)
        → s.walk ≡ w
        → is_past w ≡ false
        → is_past w' ≡ false
        → is_sent w' ≡ false
        → is_sent w ≡ false
        → Inv (record s { walk = w'; summers = ds })
    walks w w' ds f a a' b' b = record {
      emptied = λ c. absurd (ground (arith, c, still_open f a));
      phase = v.phase ∙ ap is_past f ∙ a ∙ sym a';
      stage = v.stage;
      free = λ g. v.free (ap is_sent f ∙ b);
      sent = λ g. absurd (ground (arith, g, b'));
    }

    check-Inv :
        (vs : List Visit) (d : Bool) {s' : State S} {e : Event}
        → s.walk ≡ checking vs
        → s.done_closed ≡ d
        → on_visit s (checking vs) ≡ moves s' e
        → Inv s'
    unfolding on_visit
    check-Inv vs true f d h =
        subst Inv {x = record s { walk = walked (some "walk canceled") }} (ground (arith, d))
          (walks (checking vs) _ s.summers f refl refl refl refl)
    check-Inv vs false f d h =
        subst Inv {x = record s { walk = walking vs }} (ground (arith, d))
          (walks (checking vs) _ s.summers f refl refl refl refl)

    on_visit-Inv :
        (w : WalkPc) {s' : State S} {e : Event} → s.walk ≡ w → on_visit s w ≡ moves s' e → Inv s'
    unfolding on_visit
    on_visit-Inv (walking []) f h =
        subst Inv {x = record s { walk = walked none }} (cc)
          (walks (walking []) _ s.summers f refl refl refl refl)
    on_visit-Inv (walking (failed x ∷ vs)) f h =
        subst Inv {x = record s { walk = walked (some x) }} (cc)
          (walks (walking (failed x ∷ vs)) _ s.summers f refl refl refl refl)
    on_visit-Inv (walking (other ∷ vs)) f h =
        subst Inv {x = record s { walk = walking vs }} (cc)
          (walks (walking (other ∷ vs)) _ s.summers f refl refl refl refl)
    on_visit-Inv (walking (file p ∷ vs)) f h =
        subst Inv {x = record s { walk = checking vs; summers = s.summers ++ holding p ∷ [] }} (cc)
          (walks (walking (file p ∷ vs)) _ _ f refl refl refl refl)
    on_visit-Inv (checking vs) f h = check-Inv vs s.done_closed f refl h
    on_visit-Inv (walked x) f h = cc
    on_visit-Inv (reporting x) f h = cc
    on_visit-Inv ended f h = cc

    on_walk_end-Inv :
        (w : WalkPc) (o : Option Error) {s' : State S} {e : Event}
        → s.walk ≡ w
        → s.errc ≡ o
        → on_walk_end s w o ≡ moves s' e
        → Inv s'
    unfolding on_walk_end is_closed
    on_walk_end-Inv (walked x) o f g h =
        subst Inv {x = record s { walk = reporting x; closer = waiting }} (cc) (record {
          emptied = λ c. cc;
          phase = refl;
          stage =
              open-Stage s.main s.done_closed (is_closed s.closer) false (still_open f refl)
                v.stage;
          free = λ b. v.free (ap is_sent f);
          sent = λ b. cc;
        })
    on_walk_end-Inv (reporting x) none f g h =
        subst Inv {x = record s { walk = ended; errc = some x }} (cc) (record {
          emptied = v.emptied;
          phase = v.phase ∙ ap is_past f;
          stage = v.stage;
          free = λ b. cc;
          sent = λ b d c. cc;
        })
    on_walk_end-Inv (reporting x) (some y) f g h = cc
    on_walk_end-Inv (walking vs) o f g h = cc
    on_walk_end-Inv (checking vs) o f g h = cc
    on_walk_end-Inv ended o f g h = cc

    -- A goroutine of a file goes on.
    sums_on :
        (j : ℕ) (d d' : SummerPc)
        → get_elem? s.summers j ≡ some d
        → is_here d ≡ 1
        → Inv (record s { summers = set s.summers j d' })
    sums_on j d d' g b = record {
      emptied = λ c. absurd (omega (arith, v.emptied c, b, total-get_elem? is_here s.summers j g));
      phase = v.phase;
      stage = v.stage;
      free = v.free;
      sent = v.sent;
    }

    on_cancel-Inv :
        (j : ℕ) (o : Option SummerPc) {s' : State S} {e : Event}
        → get_elem? s.summers j ≡ o
        → on_cancel s j o ≡ moves s' e
        → Inv s'
    unfolding on_cancel
    on_cancel-Inv j (some (holding p)) g h =
        subst Inv {x = record s { summers = set s.summers j finished }} (ground arith)
          (sums_on j (holding p) finished g refl)
    on_cancel-Inv j (some finished) g h = cc
    on_cancel-Inv j (some gone) g h = cc
    on_cancel-Inv j none g h = cc

    on_count-Inv :
        (j : ℕ) (o : Option SummerPc) {s' : State S} {e : Event}
        → get_elem? s.summers j ≡ o
        → on_count s j o ≡ moves s' e
        → Inv s'
    unfolding on_count
    on_count-Inv j (some finished) g h =
        subst Inv {x = record s { summers = set s.summers j gone }} (cc)
          (sums_on j finished gone g refl)
    on_count-Inv j (some (holding p)) g h = cc
    on_count-Inv j (some gone) g h = cc
    on_count-Inv j none g h = cc

    on_close-Inv :
        (c : CloserPc) {s' : State S} {e : Event}
        → s.closer ≡ c
        → on_close s c ≡ moves s' e
        → Inv s'
    unfolding on_close is_closed
    on_close-Inv waiting f h = subst Inv {x = record s { closer = closed }} (ground arith) (record {
      emptied = λ c. all_gone-total s.summers (ground arith);
      phase = sym (ap is_started f) ∙ v.phase;
      stage = closed-Stage s.main s.done_closed (is_closed s.closer) v.stage;
      free = v.free;
      sent = v.sent;
    })
    on_close-Inv not_started f h = cc
    on_close-Inv closed f h = cc

    on_main-Inv :
        (m : MainPc) (o : Option Error) {s' : State S} {e : Event}
        → s.main ≡ m
        → on_main s m o ≡ moves s' e
        → Inv s'
    unfolding on_main
    on_main-Inv collecting o f h =
        subst Inv {x = record s { main = awaiting }} (ground arith) (record {
          emptied = v.emptied;
          phase = v.phase;
          stage = (Stage-at f, ground arith);
          free = v.free;
          sent = v.sent;
        })
    on_main-Inv awaiting (some x) f h =
        subst Inv {x = record s { errc = none; main = returned x; done_closed = true }} (cc)
          (record {
            emptied = v.emptied;
            phase = v.phase;
            stage = refl;
            free = λ b. refl;
            sent = λ b d. cc;
          })
    on_main-Inv awaiting none f h = cc
    on_main-Inv (returned x) o f h = cc

    module _ {B : Type 0} (read_file : ℕ → B × Error) (md5_sum : B → S) where
      result-Inv :
          (j p : ℕ) (x : Error) {s' : State S} {e : Event}
          → get_elem? s.summers j ≡ some (holding p)
          → (sum_file read_file md5_sum p).err ≡ x
          → on_deliver read_file md5_sum s j (some (holding p)) collecting ≡ moves s' e
          → Inv s'
      unfolding on_deliver on_result
      result-Inv j p none g r h =
          let sum = (sum_file read_file md5_sum p).sum in
          let u = sums_on j (holding p) finished g refl in
          subst Inv
            {x = record s {
              summers = set s.summers j finished;
              sums = λ x. if (sum_file read_file md5_sum p).path == x then some sum else s.sums x;
            }}
            (ground (arith, r))
            (record {
              emptied = u.emptied;
              phase = v.phase;
              stage = v.stage;
              free = v.free;
              sent = v.sent;
            })
      result-Inv j p (some x) g r h =
          let u = sums_on j (holding p) finished g refl in
          subst Inv
            {x = record s {
              summers = set s.summers j finished;
              main = returned (some x);
              done_closed = true;
            }}
            (ground (arith, r))
            (record {
              emptied = u.emptied;
              phase = v.phase;
              stage = refl;
              free = v.free;
              sent = λ b d. cc;
            })

      on_deliver-Inv :
          (j : ℕ) (o : Option SummerPc) (m : MainPc) {s' : State S} {e : Event}
          → get_elem? s.summers j ≡ o
          → on_deliver read_file md5_sum s j o m ≡ moves s' e
          → Inv s'
      unfolding on_deliver
      on_deliver-Inv j (some (holding p)) collecting g h =
          result-Inv j p (sum_file read_file md5_sum p).err g refl h
      on_deliver-Inv j (some (holding p)) awaiting g h = absurd (ground arith)
      on_deliver-Inv j (some (holding p)) (returned x) g h = absurd (ground arith)
      on_deliver-Inv j (some finished) m g h = cc
      on_deliver-Inv j (some gone) m g h = cc
      on_deliver-Inv j none m g h = cc

      pub step-Inv :
          (a : Action) {s' : State S} {e : Event} → step read_file md5_sum s a ≡ moves s' e → Inv s'
      unfolding step
      step-Inv visit h = on_visit-Inv s.walk refl h
      step-Inv end_walk h = on_walk_end-Inv s.walk s.errc refl refl h
      step-Inv (deliver j) h = on_deliver-Inv j (get_elem? s.summers j) s.main refl h
      step-Inv (cancel j) h = on_cancel-Inv j (get_elem? s.summers j) refl h
      step-Inv (count_down j) h = on_count-Inv j (get_elem? s.summers j) refl h
      step-Inv close_results h = on_close-Inv s.closer refl h
      step-Inv continue_main h = on_main-Inv s.main s.errc refl h

pub Reach-Inv :
    {S B : Type 0} {read_file : ℕ → B × Error} {md5_sum : B → S} {visits : List Visit} {s : State S}
    {es : List Event}
    → Reach read_file md5_sum visits s es
    → Inv s
Reach-Inv {visits = visits} (start e) = subst Inv (sym e) (new-Inv visits)
Reach-Inv {read_file = read_file} {md5_sum = md5_sum} (later {s = s} r a h) =
    step-Inv s (Reach-Inv r) read_file md5_sum a h
