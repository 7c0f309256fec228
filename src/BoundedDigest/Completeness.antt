-- ===== src/BoundedDigest/Completeness.antt =====
-- What `MD5All` returns when it returns no error.
use mathlib.Core.Path.{subst}
use awesome_patterns.Base.{
  ℕ, ◌≡◌, refl, sym, ap, ◌∙◌, Bool, true, false, List, [], ◌∷◌, Option, none, some, arith, ◌==◌,
  if◌then◌else◌, get_elem?, set, total-set,
}
use awesome_patterns.BoundedDigest.{
  Error, Visit, failed, other, file, WalkPc, walking, offering, reporting, closing, ended,
  DigesterPc, receiving, holding, finished, gone, MainPc, collecting, awaiting, returned, State,
  Event, silent, collected, moves, on_visit, on_take, on_walk_cancel, on_walk_end, on_finish,
  on_cancel, on_count, on_close, on_main, on_result, digest, on_deliver, Action, visit, take,
  cancel_walk, end_walk, finish, deliver, cancel, count_down, close_results, continue_main, step,
  Reach, start, later,
}
use awesome_patterns.BoundedDigest.Stages.{is_ended, is_past, Stage, Inv}
use awesome_patterns.BoundedDigest.Invariant.{Reach-Inv}
use awesome_patterns.BoundedDigest.Tally.{
  sent_error, fault, remaining, visits_of, failures, holds, collections, all_counted, gone_holds,
  entry, IsComplete, Tally, After, returned-injective, filled_step, read_step, carry, walk_moves,
  digests-Tally, new-Tally,
}

module _ {S B : Type 0} (read_file : ℕ → B × Error) (md5_sum : B → S) where
  -- Where all digesters are gone before `done` is closed, the walk has ended.
  walk_has_ended :
      (s : State S)
      → Inv s
      → s.c_closed ≡ true
      → s.done_closed ≡ false
      → (b : Bool) → s.paths_closed ≡ b
      → is_ended s.walk ≡ true
  walk_has_ended s v c d true f = sym v.paths ∙ f
  walk_has_ended s v c d false f =
      absurd (omega (arith, v.early d f, v.emptied c, v.size, all_counted s.digesters))

  ended_lem : (w : WalkPc) → is_ended w ≡ true → w ≡ ended
  ended_lem ended h = refl
  ended_lem (walking vs) h = cc
  ended_lem (offering p vs) h = cc
  ended_lem (reporting x) h = cc
  ended_lem closing h = cc

  module _ (visits : List Visit) (s : State S) (es : List Event) (v : Inv s)
      (t : Tally read_file md5_sum visits s es) where
    on_visit-Tally :
        (w : WalkPc) {s' : State S} {e : Event}
        → s.walk ≡ w
        → on_visit s w ≡ moves s' e
        → Tally read_file md5_sum visits s' (e ∷ es)
    unfolding on_visit
    on_visit-Tally (walking []) f h =
        let free = ap sent_error (v.free (ap is_past f)) in
        subst (After read_file md5_sum visits es) h (
          walk_moves read_file md5_sum visits s es t (walking []) (reporting none) s.errc
            s.paths_closed f (λ q k. free) (λ x q k. refl) (λ q k. refl))
    on_visit-Tally (walking (failed y ∷ vs)) f h = subst (After read_file md5_sum visits es) h (
        walk_moves read_file md5_sum visits s es t (walking (failed y ∷ vs)) (reporting (some y))
          s.errc s.paths_closed f (λ q k. cc) (λ x q k. cc) (λ q k. cc))
    on_visit-Tally (walking (other ∷ vs)) f h = subst (After read_file md5_sum visits es) h (
        walk_moves read_file md5_sum visits s es t (walking (other ∷ vs)) (walking vs) s.errc
          s.paths_closed f (λ q k. k) (λ x q k. refl) (λ q k. refl))
    on_visit-Tally (walking (file p ∷ vs)) f h = subst (After read_file md5_sum visits es) h (
        walk_moves read_file md5_sum visits s es t (walking (file p ∷ vs)) (offering p vs) s.errc
          s.paths_closed f (λ q k. k) (λ x q k. refl) (λ q k. refl))
    on_visit-Tally (offering p vs) f h = cc
    on_visit-Tally (reporting x) f h = cc
    on_visit-Tally closing f h = cc
    on_visit-Tally ended f h = cc

    on_walk_cancel-Tally :
        (w : WalkPc) {s' : State S} {e : Event}
        → s.walk ≡ w
        → on_walk_cancel s w ≡ moves s' e
        → Tally read_file md5_sum visits s' (e ∷ es)
    unfolding on_walk_cancel
    on_walk_cancel-Tally (offering p vs) f h =
        let w' = reporting (some "walk canceled") in
        carry read_file md5_sum visits s es t (record s { walk = w' }) silent (ground arith)
          (walk_moves read_file md5_sum visits s es t (offering p vs) w' s.errc s.paths_closed f
            (λ q k. cc) (λ x q k. cc) (λ q k. cc))
    on_walk_cancel-Tally (walking vs) f h = cc
    on_walk_cancel-Tally (reporting x) f h = cc
    on_walk_cancel-Tally closing f h = cc
    on_walk_cancel-Tally ended f h = cc

    on_walk_end-Tally :
        (w : WalkPc) (o : Option Error) {s' : State S} {e : Event}
        → s.walk ≡ w
        → s.errc ≡ o
        → on_walk_end s w o ≡ moves s' e
        → Tally read_file md5_sum visits s' (e ∷ es)
    unfolding on_walk_end
    on_walk_end-Tally (reporting y) none f g h = subst (After read_file md5_sum visits es) h (
        walk_moves read_file md5_sum visits s es t (reporting y) closing (some y) s.paths_closed f
          (λ q k. k) (λ x q k. refl) (λ q k. refl))
    on_walk_end-Tally closing o f g h =
        carry read_file md5_sum visits s es t (record s { walk = ended; paths_closed = true })
          silent (ground arith)
          (walk_moves read_file md5_sum visits s es t closing ended s.errc true f (λ q k. k)
            (λ x q k. refl) (λ q k. refl))
    on_walk_end-Tally (reporting y) (some z) f g h = cc
    on_walk_end-Tally (walking vs) o f g h = cc
    on_walk_end-Tally (offering p vs) o f g h = cc
    on_walk_end-Tally ended o f g h = cc

    on_finish-Tally :
        (j : ℕ) (o : Option DigesterPc) {s' : State S} {e : Event}
        → get_elem? s.digesters j ≡ o
        → on_finish s j o ≡ moves s' e
        → Tally read_file md5_sum visits s' (e ∷ es)
    unfolding on_finish
    on_finish-Tally j (some receiving) g h =
        carry read_file md5_sum visits s es t (record s { digesters = set s.digesters j finished })
          silent (ground arith)
          (digests-Tally read_file md5_sum visits s es t j receiving finished g (λ x q. refl))
    on_finish-Tally j (some (holding p)) g h = cc
    on_finish-Tally j (some finished) g h = cc
    on_finish-Tally j (some gone) g h = cc
    on_finish-Tally j none g h = cc

    on_cancel-Tally :
        (j : ℕ) (o : Option DigesterPc) {s' : State S} {e : Event}
        → get_elem? s.digesters j ≡ o
        → on_cancel s j o ≡ moves s' e
        → Tally read_file md5_sum visits s' (e ∷ es)
    unfolding on_cancel
    on_cancel-Tally j (some (holding p)) g h =
        carry read_file md5_sum visits s es t (record s { digesters = set s.digesters j finished })
          silent (ground arith)
          (digests-Tally read_file md5_sum visits s es t j (holding p) finished g
            (λ x q. absurd (ground arith)))
    on_cancel-Tally j (some receiving) g h = cc
    on_cancel-Tally j (some finished) g h = cc
    on_cancel-Tally j (some gone) g h = cc
    on_cancel-Tally j none g h = cc

    on_count-Tally :
        (j : ℕ) (o : Option DigesterPc) {s' : State S} {e : Event}
        → get_elem? s.digesters j ≡ o
        → on_count s j o ≡ moves s' e
        → Tally read_file md5_sum visits s' (e ∷ es)
    unfolding on_count
    on_count-Tally j (some finished) g h =
        subst (After read_file md5_sum visits es) h
          (digests-Tally read_file md5_sum visits s es t j finished gone g (λ x q. refl))
    on_count-Tally j (some receiving) g h = cc
    on_count-Tally j (some (holding p)) g h = cc
    on_count-Tally j (some gone) g h = cc
    on_count-Tally j none g h = cc

    on_take-Tally :
        (j : ℕ) (w : WalkPc) (o : Option DigesterPc) {s' : State S} {e : Event}
        → s.walk ≡ w
        → get_elem? s.digesters j ≡ o
        → on_take s j w o ≡ moves s' e
        → Tally read_file md5_sum visits s' (e ∷ es)
    unfolding on_take
    on_take-Tally j (offering p vs) (some receiving) f g h =
        let same_fault = ap (λ u. fault u s.errc) f in
        subst (After read_file md5_sum visits es) h (record {
          counted = λ q k x. omega (
            arith,
            t.counted q (same_fault ∙ k) x,
            ap (λ u. visits_of x (remaining u)) f,
            total-set (holds x) s.digesters j (holding p) g,
          );
          unfailed = λ q k. t.unfailed q (same_fault ∙ k) ∙ ap (λ u. failures (remaining u)) f;
          filled = t.filled;
          read = t.read;
          final = t.final;
        })
    on_take-Tally j (offering p vs) (some (holding _)) f g h = cc
    on_take-Tally j (offering p vs) (some finished) f g h = cc
    on_take-Tally j (offering p vs) (some gone) f g h = cc
    on_take-Tally j (offering p vs) none f g h = cc
    on_take-Tally j (walking vs) o f g h = cc
    on_take-Tally j (reporting x) o f g h = cc
    on_take-Tally j closing o f g h = cc
    on_take-Tally j ended o f g h = cc

    on_close-Tally :
        {s' : State S} {e : Event}
        → on_close s ≡ moves s' e
        → Tally read_file md5_sum visits s' (e ∷ es)
    unfolding on_close
    on_close-Tally h =
        carry read_file md5_sum visits s es t (record s { c_closed = true }) silent (ground arith)
          (record {
            counted = t.counted;
            unfailed = t.unfailed;
            filled = t.filled;
            read = t.read;
            final = t.final;
          })

    -- `MD5All` at its receive of the walk's result, which is nil.
    completes : s.main ≡ awaiting → s.errc ≡ some none → IsComplete read_file md5_sum visits s.sums
    completes f g =
        let st = subst (λ m. Stage m s.done_closed s.c_closed) f v.stage in
        let w = ended_lem s.walk (walk_has_ended s v st.1 st.0 s.paths_closed refl) in
        let k : fault s.walk s.errc ≡ none = ap (λ u. fault u s.errc) w ∙ ap sent_error g in
        let all_collected : (x : ℕ) → visits_of x visits ≡ collections x es = λ x. omega (
          arith,
          t.counted st.0 k x,
          ap (λ u. visits_of x (remaining u)) w,
          gone_holds x s.digesters (v.emptied st.1),
        ) in
        (
          t.unfailed st.0 k ∙ ap (λ u. failures (remaining u)) w,
          λ x. (
            t.filled x ∙ ap (entry read_file md5_sum x) (sym (all_collected x)),
            λ h. t.read x (omega (arith, h, all_collected x)),
          ),
        )

    on_main-Tally :
        (m : MainPc) (o : Option Error) {s' : State S} {e : Event}
        → s.main ≡ m
        → s.errc ≡ o
        → on_main s m o ≡ moves s' e
        → Tally read_file md5_sum visits s' (e ∷ es)
    unfolding on_main
    on_main-Tally collecting o f g h =
        carry read_file md5_sum visits s es t (record s { main = awaiting }) silent (ground arith)
          (record {
            counted = t.counted;
            unfailed = t.unfailed;
            filled = t.filled;
            read = t.read;
            final = λ c. cc;
          })
    on_main-Tally awaiting (some y) f g h = subst (After read_file md5_sum visits es) h (record {
      counted = λ q. cc;
      unfailed = λ q. cc;
      filled = t.filled;
      read = t.read;
      final = λ c. completes f (g ∙ ap some (returned-injective read_file md5_sum c));
    })
    on_main-Tally awaiting none f g h = cc
    on_main-Tally (returned x) o f g h = cc

    result-Tally :
        (j p : ℕ) (y : Error) {s' : State S} {e : Event}
        → get_elem? s.digesters j ≡ some (holding p)
        → s.main ≡ collecting
        → (read_file p).1 ≡ y
        → on_deliver read_file md5_sum s j (some (holding p)) collecting ≡ moves s' e
        → Tally read_file md5_sum visits s' (e ∷ es)
    unfolding on_deliver on_result digest
    result-Tally j p none g f r h =
        carry read_file md5_sum visits s es t
          (record s {
            digesters = set s.digesters j receiving;
            sums = λ x. if p == x then some (md5_sum (read_file p).0) else s.sums x;
          })
          (collected p) (ground (arith, r))
          (record {
            counted = λ q k x.
                omega (arith, t.counted q k x, total-set (holds x) s.digesters j receiving g);
            unfailed = t.unfailed;
            filled =
                λ x. filled_step read_file md5_sum p x (s.sums x) (collections x es) (t.filled x);
            read = λ x. read_step read_file md5_sum p x (collections x es) r (t.read x);
            final = λ c. cc;
          })
    result-Tally j p (some y) g f r h =
        carry read_file md5_sum visits s es t
          (record s {
            digesters = set s.digesters j receiving;
            main = returned (some y);
            done_closed = true;
          })
          silent (ground (arith, r))
          (record {
            counted = λ q. cc;
            unfailed = λ q. cc;
            filled = t.filled;
            read = t.read;
            final = λ c. absurd (cc (returned-injective read_file md5_sum c));
          })

    on_deliver-Tally :
        (j : ℕ) (o : Option DigesterPc) (m : MainPc) {s' : State S} {e : Event}
        → get_elem? s.digesters j ≡ o
        → s.main ≡ m
        → on_deliver read_file md5_sum s j o m ≡ moves s' e
        → Tally read_file md5_sum visits s' (e ∷ es)
    unfolding on_deliver
    on_deliver-Tally j (some (holding p)) collecting g f h =
        result-Tally j p (read_file p).1 g f refl h
    on_deliver-Tally j (some (holding p)) awaiting g f h = absurd (ground arith)
    on_deliver-Tally j (some (holding p)) (returned x) g f h = absurd (ground arith)
    on_deliver-Tally j (some receiving) m g f h = cc
    on_deliver-Tally j (some finished) m g f h = cc
    on_deliver-Tally j (some gone) m g f h = cc
    on_deliver-Tally j none m g f h = cc

    step-Tally :
        (a : Action) {s' : State S} {e : Event}
        → step read_file md5_sum s a ≡ moves s' e
        → Tally read_file md5_sum visits s' (e ∷ es)
    unfolding step
    step-Tally visit h = on_visit-Tally s.walk refl h
    step-Tally (take j) h = on_take-Tally j s.walk (get_elem? s.digesters j) refl refl h
    step-Tally cancel_walk h = on_walk_cancel-Tally s.walk refl h
    step-Tally end_walk h = on_walk_end-Tally s.walk s.errc refl refl h
    step-Tally (finish j) h = on_finish-Tally j (get_elem? s.digesters j) refl h
    step-Tally (deliver j) h = on_deliver-Tally j (get_elem? s.digesters j) s.main refl refl h
    step-Tally (cancel j) h = on_cancel-Tally j (get_elem? s.digesters j) refl h
    step-Tally (count_down j) h = on_count-Tally j (get_elem? s.digesters j) refl h
    step-Tally close_results h = on_close-Tally h
    step-Tally continue_main h = on_main-Tally s.main s.errc refl refl h

  Reach-Tally :
      {visits : List Visit} {s : State S} {es : List Event}
      → Reach read_file md5_sum visits s es
      → Tally read_file md5_sum visits s es
  Reach-Tally {visits} (start e) =
      subst (λ s. Tally read_file md5_sum visits s []) (sym e) (new-Tally read_file md5_sum visits)
  Reach-Tally {visits} (later {s = s} {es = es} r a h) =
      step-Tally visits s es (Reach-Inv r) (Reach-Tally r) a h

  -- Whatever the interleaving of the walk, the twenty digesters and `MD5All`, and whenever files
  -- cannot be read: if `MD5All` returns no error, then the walk met none, every file that it visited
  -- was read without an error, and the map that is returned has the sums of just these files.
  pub no_error-IsComplete :
      {visits : List Visit} {s : State S} {es : List Event}
      → Reach read_file md5_sum visits s es
      → s.main ≡ returned none
      → IsComplete read_file md5_sum visits s.sums
  no_error-IsComplete r f = (Reach-Tally r).final f
