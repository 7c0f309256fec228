-- ===== src/BoundedDigest/Blame.antt =====
-- The error that `MD5All` returns.
use mathlib.Core.Path.{subst}
use mathlib.Core.Option.{some-injective}
use awesome_patterns.Base.{
  ℕ, ◌≡◌, ◌⊎◌, inl, inr, String, refl, sym, ap, ◌∙◌, Bool, true, false, List, [], ◌∷◌, Option, none,
  some, arith, ◌==◌, if◌then◌else◌, get_elem?, set,
}
use awesome_patterns.BoundedDigest.{
  Error, Visit, failed, other, file, WalkPc, walking, offering, reporting, closing, ended,
  DigesterPc, receiving, holding, finished, gone, MainPc, collecting, awaiting, returned, State,
  Event, Outcome, moves, new, on_visit, on_take, on_walk_cancel, on_walk_end, on_finish, on_cancel,
  on_count, on_close, on_main, on_result, digest, on_deliver, Action, visit, take, cancel_walk,
  end_walk, finish, deliver, cancel, count_down, close_results, continue_main, step, Reach, start,
  later,
}
use awesome_patterns.BoundedDigest.Stages.{is_past, Stage, Inv}
use awesome_patterns.BoundedDigest.Invariant.{Reach-Inv}
use awesome_patterns.BoundedDigest.Tally.{sent_error, fault, remaining}

-- The walk is called with an error.
abbrev pub IsFailing : String → List Visit → Type 0
IsFailing x [] = ⊥
IsFailing x (failed y ∷ vs) = (y ≡ x) ⊎ IsFailing x vs
IsFailing x (_ ∷ vs) = IsFailing x vs

module _ {S B : Type 0} (read_file : ℕ → B × Error) (md5_sum : B → S) where
  -- An error of the walk, or of the reading of a file.
  abbrev pub IsGenuine : List Visit → String → Type 0
  IsGenuine visits x = IsFailing x visits ⊎ ((p : ℕ) × ((read_file p).1 ≡ some x))

  record Blame (visits : List Visit) (s : State S) : Type 0 where
    left : (x : String) → IsFailing x (remaining s.walk) → IsFailing x visits
    met : (x : String) → s.done_closed ≡ false → fault s.walk s.errc ≡ some x → IsFailing x visits
    final : (x : String) → s.main ≡ returned (some x) → IsGenuine visits x

  abbrev After : List Visit → Outcome S → Type 0
  After visits (moves s e) = Blame visits s
  After visits _ = Unit

  module _ (visits : List Visit) (s : State S) (v : Inv s) (t : Blame visits s) where
    carry : (q : State S) {s' : State S} → q ≡ s' → Blame visits q → Blame visits s'
    carry q h u = subst (Blame visits) h u

    walk_moves :
        (w w' : WalkPc) (o : Option Error) (b : Bool)
        → s.walk ≡ w
        → ((x : String) → IsFailing x (remaining w') → IsFailing x (remaining w))
        → ((x : String)
            → s.done_closed ≡ false
            → fault w' o ≡ some x
            → (fault w s.errc ≡ some x) ⊎ IsFailing x (remaining w))
        → Blame visits (record s { walk = w'; errc = o; paths_closed = b })
    walk_moves w w' o b f a c = record {
      left = λ x g. t.left x (subst (λ u. IsFailing x (remaining u)) (sym f) (a x g));
      met = λ x d k. elim (c x d k) [
        | inl g ↦ t.met x d (ap (λ u. fault u s.errc) f ∙ g)
        | inr g ↦ t.left x (subst (λ u. IsFailing x (remaining u)) (sym f) g)
      ];
      final = t.final;
    }

    on_visit-Blame :
        (w : WalkPc) {s' : State S} {e : Event}
        → s.walk ≡ w
        → on_visit s w ≡ moves s' e
        → Blame visits s'
    unfolding on_visit
    on_visit-Blame (walking []) f h =
        subst (After visits) h (
          walk_moves (walking []) (reporting none) s.errc s.paths_closed f (λ x g. g) (λ x d k. cc))
    on_visit-Blame (walking (failed y ∷ vs)) f h = subst (After visits) h (
        walk_moves (walking (failed y ∷ vs)) (reporting (some y)) s.errc s.paths_closed f
          (λ x. absurd) (λ x d k. inr (inl (some-injective _ _ k))))
    on_visit-Blame (walking (other ∷ vs)) f h = subst (After visits) h (
        walk_moves (walking (other ∷ vs)) (walking vs) s.errc s.paths_closed f (λ x g. g)
          (λ x d k. inl k))
    on_visit-Blame (walking (file p ∷ vs)) f h = subst (After visits) h (
        walk_moves (walking (file p ∷ vs)) (offering p vs) s.errc s.paths_closed f (λ x g. g)
          (λ x d k. inl k))
    on_visit-Blame (offering p vs) f h = cc
    on_visit-Blame (reporting x) f h = cc
    on_visit-Blame closing f h = cc
    on_visit-Blame ended f h = cc

    on_walk_cancel-Blame :
        (w : WalkPc) {s' : State S} {e : Event}
        → s.walk ≡ w
        → on_walk_cancel s w ≡ moves s' e
        → Blame visits s'
    unfolding on_walk_cancel
    on_walk_cancel-Blame (offering p vs) f h =
        let w' = reporting (some "walk canceled") in
        carry (record s { walk = w' }) (ground arith)
          (walk_moves (offering p vs) w' s.errc s.paths_closed f (λ x. absurd)
            (λ x d k. absurd (ground arith)))
    on_walk_cancel-Blame (walking vs) f h = cc
    on_walk_cancel-Blame (reporting x) f h = cc
    on_walk_cancel-Blame closing f h = cc
    on_walk_cancel-Blame ended f h = cc

    on_walk_end-Blame :
        (w : WalkPc) (o : Option Error) {s' : State S} {e : Event}
        → s.walk ≡ w
        → on_walk_end s w o ≡ moves s' e
        → Blame visits s'
    unfolding on_walk_end
    on_walk_end-Blame (reporting none) none f h = subst (After visits) h (
        walk_moves (reporting none) closing (some none) s.paths_closed f (λ x. absurd)
          (λ x d k. cc))
    on_walk_end-Blame (reporting (some y)) none f h = subst (After visits) h (
        walk_moves (reporting (some y)) closing (some (some y)) s.paths_closed f (λ x. absurd)
          (λ x d k. inl k))
    on_walk_end-Blame closing o f h =
        carry (record s { walk = ended; paths_closed = true }) (ground arith)
          (walk_moves closing ended s.errc true f (λ x. absurd) (λ x d k. inl k))
    on_walk_end-Blame (reporting x) (some y) f h = cc
    on_walk_end-Blame (walking vs) o f h = cc
    on_walk_end-Blame (offering p vs) o f h = cc
    on_walk_end-Blame ended o f h = cc

    digesters-Blame : (ds : List DigesterPc) → Blame visits (record s { digesters = ds })
    digesters-Blame ds = record { left = t.left; met = t.met; final = t.final }

    on_take-Blame :
        (j : ℕ) (w : WalkPc) (o : Option DigesterPc) {s' : State S} {e : Event}
        → s.walk ≡ w
        → on_take s j w o ≡ moves s' e
        → Blame visits s'
    unfolding on_take
    on_take-Blame j (offering p vs) (some receiving) f h =
        let u =
          walk_moves (offering p vs) (walking vs) s.errc s.paths_closed f (λ x g. g)
            (λ x d k. inl k) in
        subst (After visits) h (record { left = u.left; met = u.met; final = t.final })
    on_take-Blame j (offering p vs) (some (holding _)) f h = cc
    on_take-Blame j (offering p vs) (some finished) f h = cc
    on_take-Blame j (offering p vs) (some gone) f h = cc
    on_take-Blame j (offering p vs) none f h = cc
    on_take-Blame j (walking vs) o f h = cc
    on_take-Blame j (reporting x) o f h = cc
    on_take-Blame j closing o f h = cc
    on_take-Blame j ended o f h = cc

    on_finish-Blame :
        (j : ℕ) (o : Option DigesterPc) {s' : State S} {e : Event}
        → on_finish s j o ≡ moves s' e
        → Blame visits s'
    unfolding on_finish
    on_finish-Blame j (some receiving) h =
        let ds = set s.digesters j finished in
        carry (record s { digesters = ds }) (ground arith) (digesters-Blame ds)
    on_finish-Blame j (some (holding p)) h = cc
    on_finish-Blame j (some finished) h = cc
    on_finish-Blame j (some gone) h = cc
    on_finish-Blame j none h = cc

    on_cancel-Blame :
        (j : ℕ) (o : Option DigesterPc) {s' : State S} {e : Event}
        → on_cancel s j o ≡ moves s' e
        → Blame visits s'
    unfolding on_cancel
    on_cancel-Blame j (some (holding p)) h =
        let ds = set s.digesters j finished in
        carry (record s { digesters = ds }) (ground arith) (digesters-Blame ds)
    on_cancel-Blame j (some receiving) h = cc
    on_cancel-Blame j (some finished) h = cc
    on_cancel-Blame j (some gone) h = cc
    on_cancel-Blame j none h = cc

    on_count-Blame :
        (j : ℕ) (o : Option DigesterPc) {s' : State S} {e : Event}
        → on_count s j o ≡ moves s' e
        → Blame visits s'
    unfolding on_count
    on_count-Blame j (some finished) h =
        subst (After visits) h (digesters-Blame (set s.digesters j gone))
    on_count-Blame j (some receiving) h = cc
    on_count-Blame j (some (holding p)) h = cc
    on_count-Blame j (some gone) h = cc
    on_count-Blame j none h = cc

    on_close-Blame : {s' : State S} {e : Event} → on_close s ≡ moves s' e → Blame visits s'
    unfolding on_close
    on_close-Blame h =
        carry (record s { c_closed = true }) (ground arith)
          (record { left = t.left; met = t.met; final = t.final })

    -- The error that the walk has sent.
    walk_error :
        (w : WalkPc) (x : String)
        → s.walk ≡ w
        → s.done_closed ≡ false
        → s.errc ≡ some (some x)
        → IsFailing x visits
    walk_error closing x f d g = t.met x d (ap (λ u. fault u s.errc) f ∙ ap sent_error g)
    walk_error ended x f d g = t.met x d (ap (λ u. fault u s.errc) f ∙ ap sent_error g)
    walk_error (walking vs) x f d g = absurd (ground (arith, v.free (ap is_past f), g))
    walk_error (offering p vs) x f d g = absurd (ground (arith, v.free (ap is_past f), g))
    walk_error (reporting e) x f d g = absurd (ground (arith, v.free (ap is_past f), g))

    on_main-Blame :
        (m : MainPc) (o : Option Error) {s' : State S} {e : Event}
        → s.main ≡ m
        → s.errc ≡ o
        → on_main s m o ≡ moves s' e
        → Blame visits s'
    unfolding on_main
    on_main-Blame collecting o f g h =
        carry (record s { main = awaiting }) (ground arith)
          (record { left = t.left; met = t.met; final = λ x k. cc })
    on_main-Blame awaiting (some y) f g h =
        let d = (subst (λ m. Stage m s.done_closed s.c_closed) f v.stage).0 in
        subst (After visits) h (record {
          left = t.left;
          met = λ x b. cc;
          final = λ x k. inl (walk_error s.walk x refl d (g ∙ ap some (cc)));
        })
    on_main-Blame awaiting none f g h = cc
    on_main-Blame (returned y) o f g h = cc

    result-Blame :
        (j p : ℕ) (y : Error) {s' : State S} {e : Event}
        → (read_file p).1 ≡ y
        → s.main ≡ collecting
        → on_deliver read_file md5_sum s j (some (holding p)) collecting ≡ moves s' e
        → Blame visits s'
    unfolding on_deliver on_result digest
    result-Blame j p none r f h =
        carry
          (record s {
            digesters = set s.digesters j receiving;
            sums = λ x. if p == x then some (md5_sum (read_file p).0) else s.sums x;
          })
          (ground (arith, r)) (record { left = t.left; met = t.met; final = λ x k. cc })
    result-Blame j p (some y) r f h =
        carry
          (record s {
            digesters = set s.digesters j receiving;
            main = returned (some y);
            done_closed = true;
          })
          (ground (arith, r))
          (record { left = t.left; met = λ x b. cc; final = λ x k. inr (p, cc) })

    on_deliver-Blame :
        (j : ℕ) (o : Option DigesterPc) (m : MainPc) {s' : State S} {e : Event}
        → s.main ≡ m
        → on_deliver read_file md5_sum s j o m ≡ moves s' e
        → Blame visits s'
    unfolding on_deliver
    on_deliver-Blame j (some (holding p)) collecting f h = result-Blame j p (read_file p).1 refl f h
    on_deliver-Blame j (some (holding p)) awaiting f h = absurd (ground arith)
    on_deliver-Blame j (some (holding p)) (returned x) f h = absurd (ground arith)
    on_deliver-Blame j (some receiving) m f h = cc
    on_deliver-Blame j (some finished) m f h = cc
    on_deliver-Blame j (some gone) m f h = cc
    on_deliver-Blame j none m f h = cc

    step-Blame :
        (a : Action) {s' : State S} {e : Event}
        → step read_file md5_sum s a ≡ moves s' e
        → Blame visits s'
    unfolding step
    step-Blame visit h = on_visit-Blame s.walk refl h
    step-Blame (take j) h = on_take-Blame j s.walk (get_elem? s.digesters j) refl h
    step-Blame cancel_walk h = on_walk_cancel-Blame s.walk refl h
    step-Blame end_walk h = on_walk_end-Blame s.walk s.errc refl h
    step-Blame (finish j) h = on_finish-Blame j (get_elem? s.digesters j) h
    step-Blame (deliver j) h = on_deliver-Blame j (get_elem? s.digesters j) s.main refl h
    step-Blame (cancel j) h = on_cancel-Blame j (get_elem? s.digesters j) h
    step-Blame (count_down j) h = on_count-Blame j (get_elem? s.digesters j) h
    step-Blame close_results h = on_close-Blame h
    step-Blame continue_main h = on_main-Blame s.main s.errc refl refl h

  new-Blame : (visits : List Visit) → Blame visits (new visits)
  unfolding new
  new-Blame visits = record { left = λ x g. g; met = λ x d k. cc; final = λ x k. cc }

  Reach-Blame :
      {visits : List Visit} {s : State S} {es : List Event}
      → Reach read_file md5_sum visits s es
      → Blame visits s
  Reach-Blame {visits} (start e) = subst (Blame visits) (sym e) (new-Blame visits)
  Reach-Blame {visits} (later {s = s} r a h) = step-Blame visits s (Reach-Inv r) (Reach-Blame r) a h

  -- When `MD5All` returns an error, it is one that the walk met or one of the reading of a file: the
  -- error `walk canceled`, by which a walk ends behind a return, is never returned.
  pub error-IsGenuine :
      {visits : List Visit} {s : State S} {es : List Event} {x : String}
      → Reach read_file md5_sum visits s es
      → s.main ≡ returned (some x)
      → IsGenuine visits x
  error-IsGenuine {x = x} r f = (Reach-Blame r).final x f
