-- ===== src/ParallelDigest/Completeness.antt =====
-- What `MD5All` returns when it returns no error.
use mathlib.Core.Path.{subst}
use awesome_patterns.Base.{
  ℕ, ◌≡◌, refl, sym, ap, ◌∙◌, Bool, true, false, List, [], ◌∷◌, Option, none, some, arith, ◌==◌,
  if◌then◌else◌, get_elem?, set, total-set,
}
use awesome_patterns.BoundedDigest.{Error, Visit, failed, other, file}
use awesome_patterns.ParallelDigest.{
  WalkPc, walking, checking, walked, reporting, ended, SummerPc, holding, finished, gone, CloserPc,
  not_started, waiting, closed, MainPc, collecting, awaiting, returned, State, Event, silent,
  collected, moves, is_closed, on_visit, on_walk_end, on_cancel, on_count, on_close, on_main,
  on_result, sum_file, on_deliver, Action, visit, end_walk, deliver, cancel, count_down,
  close_results, continue_main, step, Reach, start, later,
}
use awesome_patterns.BoundedDigest.Tally.{
  sent_error, visits_of, failures, entry, IsComplete, filled_step, read_step,
}
use awesome_patterns.ParallelDigest.Invariant.{
  is_past, is_sent, is_started, Inv, Stage-at, Reach-Inv,
}
use awesome_patterns.ParallelDigest.Tally.{
  fault, remaining, holds, collections, gone_holds, returned-injective, Tally, After, new-Tally,
  carry, walk_moves, walk_starts, sums-Tally,
}

closed-started : (c : CloserPc) → is_closed c ≡ true → is_started c ≡ true
unfolding is_closed
closed-started closed h = refl
closed-started waiting h = cc
closed-started not_started h = cc

past-remaining : (w : WalkPc) → is_past w ≡ true → remaining w ≡ []
past-remaining (reporting e) h = refl
past-remaining ended h = refl
past-remaining (walking vs) h = cc
past-remaining (checking vs) h = cc
past-remaining (walked e) h = cc

sent_fault :
    (w : WalkPc) (o : Option Error)
    → is_past w ≡ true
    → (is_sent w ≡ false → o ≡ none)
    → o ≡ some none
    → fault w o ≡ none
sent_fault ended o h f g = ap sent_error g
sent_fault (reporting e) o h f g = absurd (cc (f refl))
sent_fault (walking vs) o h f g = cc
sent_fault (checking vs) o h f g = cc
sent_fault (walked e) o h f g = cc

module _ {S B : Type 0} (read_file : ℕ → B × Error) (md5_sum : B → S) (visits : List Visit) where
  abbrev Here : State S → List Event → Type 0
  Here = Tally read_file md5_sum visits

  module _ (s : State S) (es : List Event) (v : Inv s) (t : Here s es) where
    check-Tally :
        (vs : List Visit) (d : Bool) {s' : State S} {e : Event}
        → s.walk ≡ checking vs
        → s.done_closed ≡ d
        → on_visit s (checking vs) ≡ moves s' e
        → Here s' (e ∷ es)
    unfolding on_visit
    check-Tally vs true f d h =
        carry read_file md5_sum visits s es t (record s { walk = walked (some "walk canceled") })
          silent (ground (arith, d))
          (walk_moves read_file md5_sum visits s es t (checking vs) _ s.errc s.closer f (λ q k. cc)
            (λ x k. cc) (λ k. cc))
    check-Tally vs false f d h =
        carry read_file md5_sum visits s es t (record s { walk = walking vs }) silent
          (ground (arith, d))
          (walk_moves read_file md5_sum visits s es t (checking vs) (walking vs) s.errc s.closer f
            (λ q k. k) (λ x k. refl) (λ k. refl))

    on_visit-Tally :
        (w : WalkPc) {s' : State S} {e : Event}
        → s.walk ≡ w
        → on_visit s w ≡ moves s' e
        → Here s' (e ∷ es)
    unfolding on_visit
    on_visit-Tally (walking []) f h =
        let free = ap sent_error (v.free (ap is_sent f)) in
        subst (After read_file md5_sum visits es) h (
          walk_moves read_file md5_sum visits s es t (walking []) (walked none) s.errc s.closer f
            (λ q k. free) (λ x k. refl) (λ k. refl))
    on_visit-Tally (walking (failed y ∷ vs)) f h = subst (After read_file md5_sum visits es) h (
        walk_moves read_file md5_sum visits s es t (walking (failed y ∷ vs)) (walked (some y))
          s.errc s.closer f (λ q k. cc) (λ x k. cc) (λ k. cc))
    on_visit-Tally (walking (other ∷ vs)) f h = subst (After read_file md5_sum visits es) h (
        walk_moves read_file md5_sum visits s es t (walking (other ∷ vs)) (walking vs) s.errc
          s.closer f (λ q k. k) (λ x k. refl) (λ k. refl))
    on_visit-Tally (walking (file p ∷ vs)) f h =
        subst (After read_file md5_sum visits es) h
          (walk_starts read_file md5_sum visits s es t p vs f)
    on_visit-Tally (checking vs) f h = check-Tally vs s.done_closed f refl h
    on_visit-Tally (walked x) f h = cc
    on_visit-Tally (reporting x) f h = cc
    on_visit-Tally ended f h = cc

    on_walk_end-Tally :
        (w : WalkPc) (o : Option Error) {s' : State S} {e : Event}
        → s.walk ≡ w
        → on_walk_end s w o ≡ moves s' e
        → Here s' (e ∷ es)
    unfolding on_walk_end
    on_walk_end-Tally (walked y) o f h = subst (After read_file md5_sum visits es) h (
        walk_moves read_file md5_sum visits s es t (walked y) (reporting y) s.errc waiting f
          (λ q k. k) (λ x k. refl) (λ k. refl))
    on_walk_end-Tally (reporting y) none f h = subst (After read_file md5_sum visits es) h (
        walk_moves read_file md5_sum visits s es t (reporting y) ended (some y) s.closer f
          (λ q k. k) (λ x k. refl) (λ k. refl))
    on_walk_end-Tally (reporting y) (some z) f h = cc
    on_walk_end-Tally (walking vs) o f h = cc
    on_walk_end-Tally (checking vs) o f h = cc
    on_walk_end-Tally ended o f h = cc

    on_cancel-Tally :
        (j : ℕ) (o : Option SummerPc) {s' : State S} {e : Event}
        → get_elem? s.summers j ≡ o
        → on_cancel s j o ≡ moves s' e
        → Here s' (e ∷ es)
    unfolding on_cancel
    on_cancel-Tally j (some (holding p)) g h =
        carry read_file md5_sum visits s es t (record s { summers = set s.summers j finished })
          silent (ground arith)
          (sums-Tally read_file md5_sum visits s es t j (holding p) finished g
            (λ x q. absurd (ground arith)))
    on_cancel-Tally j (some finished) g h = cc
    on_cancel-Tally j (some gone) g h = cc
    on_cancel-Tally j none g h = cc

    on_count-Tally :
        (j : ℕ) (o : Option SummerPc) {s' : State S} {e : Event}
        → get_elem? s.summers j ≡ o
        → on_count s j o ≡ moves s' e
        → Here s' (e ∷ es)
    unfolding on_count
    on_count-Tally j (some finished) g h =
        subst (After read_file md5_sum visits es) h
          (sums-Tally read_file md5_sum visits s es t j finished gone g (λ x q. refl))
    on_count-Tally j (some (holding p)) g h = cc
    on_count-Tally j (some gone) g h = cc
    on_count-Tally j none g h = cc

    on_close-Tally :
        (c : CloserPc) {s' : State S} {e : Event} → on_close s c ≡ moves s' e → Here s' (e ∷ es)
    unfolding on_close
    on_close-Tally waiting h =
        carry read_file md5_sum visits s es t (record s { closer = closed }) silent (ground arith)
          (record {
            counted = t.counted;
            unfailed = t.unfailed;
            filled = t.filled;
            read = t.read;
            final = t.final;
          })
    on_close-Tally not_started h = cc
    on_close-Tally closed h = cc

    -- `MD5All` at its receive of the walk's result, which is nil.
    completes : s.main ≡ awaiting → s.errc ≡ some none → IsComplete read_file md5_sum visits s.sums
    completes f g =
        let st = Stage-at s v f in
        let past = sym v.phase ∙ closed-started s.closer st.1 in
        let rest = past-remaining s.walk past in
        let k = sent_fault s.walk s.errc past v.free g in
        let all_collected : (x : ℕ) → visits_of x visits ≡ collections x es = λ x. omega (
          arith,
          t.counted st.0 k x,
          ap (visits_of x) rest,
          gone_holds x s.summers (v.emptied st.1),
        ) in
        (
          t.unfailed st.0 k ∙ ap failures rest,
          λ x. (
            t.filled x ∙ ap (entry read_file md5_sum x) (sym (all_collected x)),
            λ h. t.read x (omega (arith, h, all_collected x)),
          ),
        )

    on_main-Tally :
        (m : MainPc) (o : Option Error) {s' : State S} {e : Event}
        → s.main ≡ m
        → s.errc ≡ o
        → on_main s m o ≡ moves s' e
        → Here s' (e ∷ es)
    unfolding on_main
    on_main-Tally collecting o f g h =
        carry read_file md5_sum visits s es t (record s { main = awaiting }) silent (ground arith)
          (record {
            counted = t.counted;
            unfailed = t.unfailed;
            filled = t.filled;
            read = t.read;
            final = λ c. cc;
          })
    on_main-Tally awaiting (some y) f g h = subst (After read_file md5_sum visits es) h (record {
      counted = λ q. cc;
      unfailed = λ q. cc;
      filled = t.filled;
      read = t.read;
      final = λ c. completes f (g ∙ ap some (returned-injective c));
    })
    on_main-Tally awaiting none f g h = cc
    on_main-Tally (returned x) o f g h = cc

    result-Tally :
        (j p : ℕ) (y : Error) {s' : State S} {e : Event}
        → get_elem? s.summers j ≡ some (holding p)
        → s.main ≡ collecting
        → (read_file p).1 ≡ y
        → on_deliver read_file md5_sum s j (some (holding p)) collecting ≡ moves s' e
        → Here s' (e ∷ es)
    unfolding on_deliver on_result sum_file
    result-Tally j p none g f r h =
        carry read_file md5_sum visits s es t
          (record s {
            summers = set s.summers j finished;
            sums = λ x. if p == x then some (md5_sum (read_file p).0) else s.sums x;
          })
          (collected p) (ground (arith, r))
          (record {
            counted =
                λ q k x. omega (arith, t.counted q k x, total-set (holds x) s.summers j finished g);
            unfailed = t.unfailed;
            filled =
                λ x. filled_step read_file md5_sum p x (s.sums x) (collections x es) (t.filled x);
            read = λ x. read_step read_file md5_sum p x (collections x es) r (t.read x);
            final = λ c. cc;
          })
    result-Tally j p (some y) g f r h =
        carry read_file md5_sum visits s es t
          (record s {
            summers = set s.summers j finished;
            main = returned (some y);
            done_closed = true;
          })
          silent (ground (arith, r))
          (record {
            counted = λ q. cc;
            unfailed = λ q. cc;
            filled = t.filled;
            read = t.read;
            final = λ c. absurd (cc (returned-injective c));
          })

    on_deliver-Tally :
        (j : ℕ) (o : Option SummerPc) (m : MainPc) {s' : State S} {e : Event}
        → get_elem? s.summers j ≡ o
        → s.main ≡ m
        → on_deliver read_file md5_sum s j o m ≡ moves s' e
        → Here s' (e ∷ es)
    unfolding on_deliver
    on_deliver-Tally j (some (holding p)) collecting g f h =
        result-Tally j p (read_file p).1 g f refl h
    on_deliver-Tally j (some (holding p)) awaiting g f h = absurd (ground arith)
    on_deliver-Tally j (some (holding p)) (returned x) g f h = absurd (ground arith)
    on_deliver-Tally j (some finished) m g f h = cc
    on_deliver-Tally j (some gone) m g f h = cc
    on_deliver-Tally j none m g f h = cc

    step-Tally :
        (a : Action) {s' : State S} {e : Event}
        → step read_file md5_sum s a ≡ moves s' e
        → Here s' (e ∷ es)
    unfolding step
    step-Tally visit h = on_visit-Tally s.walk refl h
    step-Tally end_walk h = on_walk_end-Tally s.walk s.errc refl h
    step-Tally (deliver j) h = on_deliver-Tally j (get_elem? s.summers j) s.main refl refl h
    step-Tally (cancel j) h = on_cancel-Tally j (get_elem? s.summers j) refl h
    step-Tally (count_down j) h = on_count-Tally j (get_elem? s.summers j) refl h
    step-Tally close_results h = on_close-Tally s.closer h
    step-Tally continue_main h = on_main-Tally s.main s.errc refl refl h

  Reach-Tally : {s : State S} {es : List Event} → Reach read_file md5_sum visits s es → Here s es
  Reach-Tally (start e) = subst (λ s. Here s []) (sym e) (new-Tally read_file md5_sum visits)
  Reach-Tally (later {s = s} {es = es} r a h) = step-Tally s es (Reach-Inv r) (Reach-Tally r) a h

  -- Whatever the interleaving of the walk, the goroutines of the files and `MD5All`: if `MD5All` of
  -- concurrency/parallelism.go returns no error, then the walk met none, every file that it visited
  -- was read without an error, and the map that is returned has the sums of just these files.
  pub map-IsComplete :
      {s : State S} {es : List Event}
      → Reach read_file md5_sum visits s es
      → s.main ≡ returned none
      → IsComplete read_file md5_sum visits s.sums
  map-IsComplete r f = (Reach-Tally r).final f
