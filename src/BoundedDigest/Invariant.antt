-- ===== src/BoundedDigest/Invariant.antt =====
-- How the goroutines of `MD5All` stand to one another in every reachable state.
use mathlib.Core.Path.{subst}
use awesome_patterns.Base.{
  ℕ, ◌≡◌, refl, sym, ap, ◌∙◌, true, List, [], ◌∷◌, Option, none, some, arith, ◌==◌, if◌then◌else◌,
  get_elem?, set, total-get_elem?,
}
use awesome_patterns.BoundedDigest.{
  Error, Visit, failed, other, file, WalkPc, walking, offering, reporting, closing, ended,
  DigesterPc, receiving, holding, finished, gone, MainPc, collecting, awaiting, returned, State,
  Event, moves, on_visit, on_take, on_walk_cancel, on_walk_end, on_finish, on_cancel, on_count,
  on_close, on_main, on_result, digest, on_deliver, Action, visit, take, cancel_walk, end_walk,
  finish, deliver, cancel, count_down, close_results, continue_main, step, Reach, start, later,
}
use awesome_patterns.BoundedDigest.Stages.{
  has_left, is_ended, is_past, all_gone-total, closed-Stage, Inv, new-Inv, Stage-at, walks, digests,
}

module _ {S : Type 0} where
  module _ (s : State S) (v : Inv s) where
    on_visit-Inv :
        (w : WalkPc) {s' : State S} {e : Event} → s.walk ≡ w → on_visit s w ≡ moves s' e → Inv s'
    unfolding on_visit
    on_visit-Inv (walking []) f h =
        subst Inv {x = record s { walk = reporting none }} (cc)
          (walks s v (walking []) _ f refl refl refl refl)
    on_visit-Inv (walking (failed x ∷ vs)) f h =
        subst Inv {x = record s { walk = reporting (some x) }} (cc)
          (walks s v (walking (failed x ∷ vs)) _ f refl refl refl refl)
    on_visit-Inv (walking (other ∷ vs)) f h =
        subst Inv {x = record s { walk = walking vs }} (cc)
          (walks s v (walking (other ∷ vs)) _ f refl refl refl refl)
    on_visit-Inv (walking (file p ∷ vs)) f h =
        subst Inv {x = record s { walk = offering p vs }} (cc)
          (walks s v (walking (file p ∷ vs)) _ f refl refl refl refl)
    on_visit-Inv (offering p vs) f h = cc
    on_visit-Inv (reporting x) f h = cc
    on_visit-Inv closing f h = cc
    on_visit-Inv ended f h = cc

    on_walk_cancel-Inv :
        (w : WalkPc) {s' : State S} {e : Event}
        → s.walk ≡ w
        → on_walk_cancel s w ≡ moves s' e
        → Inv s'
    unfolding on_walk_cancel
    on_walk_cancel-Inv (offering p vs) f h =
        subst Inv {x = record s { walk = reporting (some "walk canceled") }} (ground arith)
          (walks s v (offering p vs) _ f refl refl refl refl)
    on_walk_cancel-Inv (walking vs) f h = cc
    on_walk_cancel-Inv (reporting x) f h = cc
    on_walk_cancel-Inv closing f h = cc
    on_walk_cancel-Inv ended f h = cc

    on_walk_end-Inv :
        (w : WalkPc) (o : Option Error) {s' : State S} {e : Event}
        → s.walk ≡ w
        → s.errc ≡ o
        → on_walk_end s w o ≡ moves s' e
        → Inv s'
    unfolding on_walk_end
    on_walk_end-Inv (reporting x) none f g h =
        subst Inv {x = record s { walk = closing; errc = some x }} (cc) (record {
          size = v.size;
          early = v.early;
          emptied = v.emptied;
          paths = v.paths ∙ ap is_ended f;
          stage = v.stage;
          free = λ b. cc;
          sent = λ b d c. cc;
        })
    on_walk_end-Inv closing o f g h =
        subst Inv {x = record s { walk = ended; paths_closed = true }} (ground arith) (record {
          size = v.size;
          early = λ d b. cc;
          emptied = v.emptied;
          paths = refl;
          stage = v.stage;
          free = λ b. cc;
          sent = λ b d. v.sent (ap is_past f) d;
        })
    on_walk_end-Inv (reporting x) (some y) f g h = cc
    on_walk_end-Inv (walking vs) o f g h = cc
    on_walk_end-Inv (offering p vs) o f g h = cc
    on_walk_end-Inv ended o f g h = cc

    on_finish-Inv :
        (j : ℕ) (o : Option DigesterPc) {s' : State S} {e : Event}
        → get_elem? s.digesters j ≡ o
        → on_finish s j o ≡ moves s' e
        → Inv s'
    unfolding on_finish
    on_finish-Inv j (some receiving) g h =
        subst Inv {x = record s { digesters = set s.digesters j finished }} (ground arith)
          (digests s v j receiving finished g (λ c q. ground arith) refl)
    on_finish-Inv j (some (holding p)) g h = cc
    on_finish-Inv j (some finished) g h = cc
    on_finish-Inv j (some gone) g h = cc
    on_finish-Inv j none g h = cc

    on_cancel-Inv :
        (j : ℕ) (o : Option DigesterPc) {s' : State S} {e : Event}
        → get_elem? s.digesters j ≡ o
        → on_cancel s j o ≡ moves s' e
        → Inv s'
    unfolding on_cancel
    on_cancel-Inv j (some (holding p)) g h =
        subst Inv {x = record s { digesters = set s.digesters j finished }} (ground arith)
          (digests s v j (holding p) finished g (λ c q. ground arith) refl)
    on_cancel-Inv j (some receiving) g h = cc
    on_cancel-Inv j (some finished) g h = cc
    on_cancel-Inv j (some gone) g h = cc
    on_cancel-Inv j none g h = cc

    on_count-Inv :
        (j : ℕ) (o : Option DigesterPc) {s' : State S} {e : Event}
        → get_elem? s.digesters j ≡ o
        → on_count s j o ≡ moves s' e
        → Inv s'
    unfolding on_count
    on_count-Inv j (some finished) g h =
        subst Inv {x = record s { digesters = set s.digesters j gone }} (cc) (
          digests s v j finished gone g
            (λ c q. absurd (omega (arith, v.early c q, total-get_elem? has_left s.digesters j g)))
            refl)
    on_count-Inv j (some receiving) g h = cc
    on_count-Inv j (some (holding p)) g h = cc
    on_count-Inv j (some gone) g h = cc
    on_count-Inv j none g h = cc

    on_take-Inv :
        (j : ℕ) (w : WalkPc) (o : Option DigesterPc) {s' : State S} {e : Event}
        → s.walk ≡ w
        → get_elem? s.digesters j ≡ o
        → on_take s j w o ≡ moves s' e
        → Inv s'
    unfolding on_take
    on_take-Inv j (offering p vs) (some receiving) f g h =
        let q = record s { walk = walking vs; digesters = set s.digesters j (holding p) } in
        let u = digests s v j receiving (holding p) g (λ c b. refl) refl in
        let t = walks s v (offering p vs) (walking vs) f refl refl refl refl in
        subst Inv {x = q} (cc) (record {
          size = u.size;
          early = u.early;
          emptied = u.emptied;
          paths = t.paths;
          stage = v.stage;
          free = t.free;
          sent = t.sent;
        })
    on_take-Inv j (offering p vs) (some (holding _)) f g h = cc
    on_take-Inv j (offering p vs) (some finished) f g h = cc
    on_take-Inv j (offering p vs) (some gone) f g h = cc
    on_take-Inv j (offering p vs) none f g h = cc
    on_take-Inv j (walking vs) o f g h = cc
    on_take-Inv j (reporting x) o f g h = cc
    on_take-Inv j closing o f g h = cc
    on_take-Inv j ended o f g h = cc

    on_close-Inv : {s' : State S} {e : Event} → on_close s ≡ moves s' e → Inv s'
    unfolding on_close
    on_close-Inv h = subst Inv {x = record s { c_closed = true }} (ground arith) (record {
      size = v.size;
      early = v.early;
      emptied = λ c. all_gone-total s.digesters (ground arith);
      paths = v.paths;
      stage = closed-Stage s.main s.done_closed s.c_closed v.stage;
      free = v.free;
      sent = v.sent;
    })

    on_main-Inv :
        (m : MainPc) (o : Option Error) {s' : State S} {e : Event}
        → s.main ≡ m
        → on_main s m o ≡ moves s' e
        → Inv s'
    unfolding on_main
    on_main-Inv collecting o f h =
        subst Inv {x = record s { main = awaiting }} (ground arith) (record {
          size = v.size;
          early = v.early;
          emptied = v.emptied;
          paths = v.paths;
          stage = (Stage-at s v f, ground arith);
          free = v.free;
          sent = v.sent;
        })
    on_main-Inv awaiting (some x) f h =
        subst Inv {x = record s { errc = none; main = returned x; done_closed = true }} (cc)
          (record {
            size = v.size;
            early = λ d. cc;
            emptied = v.emptied;
            paths = v.paths;
            stage = refl;
            free = λ b. refl;
            sent = λ b d. cc;
          })
    on_main-Inv awaiting none f h = cc
    on_main-Inv (returned x) o f h = cc

    module _ {B : Type 0} (read_file : ℕ → B × Error) (md5_sum : B → S) where
      result-Inv :
          (j p : ℕ) (x : Error) {s' : State S} {e : Event}
          → get_elem? s.digesters j ≡ some (holding p)
          → s.main ≡ collecting
          → (digest read_file md5_sum p).err ≡ x
          → on_deliver read_file md5_sum s j (some (holding p)) collecting ≡ moves s' e
          → Inv s'
      unfolding on_deliver on_result
      result-Inv j p none g f r h =
          let sum = (digest read_file md5_sum p).sum in
          let u = digests s v j (holding p) receiving g (λ c b. refl) refl in
          subst Inv
            {x = record s {
              digesters = set s.digesters j receiving;
              sums = λ x. if (digest read_file md5_sum p).path == x then some sum else s.sums x;
            }}
            (ground (arith, r))
            (record {
              size = u.size;
              early = u.early;
              emptied = u.emptied;
              paths = v.paths;
              stage = v.stage;
              free = v.free;
              sent = v.sent;
            })
      result-Inv j p (some x) g f r h =
          let u = digests s v j (holding p) receiving g (λ c b. refl) refl in
          subst Inv
            {x = record s {
              digesters = set s.digesters j receiving;
              main = returned (some x);
              done_closed = true;
            }}
            (ground (arith, r))
            (record {
              size = u.size;
              early = λ d. cc;
              emptied = u.emptied;
              paths = v.paths;
              stage = refl;
              free = v.free;
              sent = λ b d. cc;
            })

      on_deliver-Inv :
          (j : ℕ) (o : Option DigesterPc) (m : MainPc) {s' : State S} {e : Event}
          → get_elem? s.digesters j ≡ o
          → s.main ≡ m
          → on_deliver read_file md5_sum s j o m ≡ moves s' e
          → Inv s'
      unfolding on_deliver
      on_deliver-Inv j (some (holding p)) collecting g f h =
          result-Inv j p (digest read_file md5_sum p).err g f refl h
      on_deliver-Inv j (some (holding p)) awaiting g f h = absurd (ground arith)
      on_deliver-Inv j (some (holding p)) (returned x) g f h = absurd (ground arith)
      on_deliver-Inv j (some receiving) m g f h = cc
      on_deliver-Inv j (some finished) m g f h = cc
      on_deliver-Inv j (some gone) m g f h = cc
      on_deliver-Inv j none m g f h = cc

      step-Inv :
          (a : Action) {s' : State S} {e : Event} → step read_file md5_sum s a ≡ moves s' e → Inv s'
      unfolding step
      step-Inv visit h = on_visit-Inv s.walk refl h
      step-Inv (take j) h = on_take-Inv j s.walk (get_elem? s.digesters j) refl refl h
      step-Inv cancel_walk h = on_walk_cancel-Inv s.walk refl h
      step-Inv end_walk h = on_walk_end-Inv s.walk s.errc refl refl h
      step-Inv (finish j) h = on_finish-Inv j (get_elem? s.digesters j) refl h
      step-Inv (deliver j) h = on_deliver-Inv j (get_elem? s.digesters j) s.main refl refl h
      step-Inv (cancel j) h = on_cancel-Inv j (get_elem? s.digesters j) refl h
      step-Inv (count_down j) h = on_count-Inv j (get_elem? s.digesters j) refl h
      step-Inv close_results h = on_close-Inv h
      step-Inv continue_main h = on_main-Inv s.main s.errc refl h

pub Reach-Inv :
    {S B : Type 0} {read_file : ℕ → B × Error} {md5_sum : B → S} {visits : List Visit} {s : State S}
    {es : List Event}
    → Reach read_file md5_sum visits s es
    → Inv s
Reach-Inv {visits = visits} (start e) = subst Inv (sym e) (new-Inv visits)
Reach-Inv {read_file = read_file} {md5_sum = md5_sum} (later {s = s} r a h) =
    step-Inv s (Reach-Inv r) read_file md5_sum a h
