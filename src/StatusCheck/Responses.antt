-- ===== src/StatusCheck/Responses.antt =====
-- What the loop receives.
use mathlib.Core.Path.{subst}
use awesome_patterns.Base.{
  ℕ, ◌+◌, ◌≡◌, ◌≢◌, refl, sym, ◌∙◌, Bool, true, false, List, [], ◌∷◌, ◌++◌, Option, none, some,
  get_elem?, map, arith, total, total-set, total-snoc, total-get_elem?,
}
use awesome_patterns.Gather.{Evaluated, result, failed}
use awesome_patterns.StatusCheck.{
  FetchPc, starting, sending, gone, MainPc, ranging, stopping, over, left, State, moves, Action,
  begin, deliver, close_results, continue_main, new, at, is_done, on_begin, on_deliver, all_gone,
  on_wait, on_main, step, Reach, start, later,
}

module _ {R E : Type 0} where
  -- The result that a goroutine has still to send, weighed.
  abbrev to_send : (Evaluated R E → ℕ) → FetchPc R E → ℕ
  to_send w (starting v) = w v
  to_send w (sending v) = w v
  to_send w gone = 0

  abbrev not_gone : FetchPc R E → ℕ
  not_gone (starting v) = 1
  not_gone (sending v) = 1
  not_gone gone = 0

  -- While the loop has met no error, `done` has no value, and no result is lost.
  abbrev Complete : List (Evaluated R E) → State R E → MainPc E → Type 0
  Complete answers s ranging =
      (s.signalled ≡ false)
      × ((w : Evaluated R E → ℕ)
          → total (λ r. w (result r)) s.responses + total (to_send w) s.fetches ≡ total w answers)
  Complete answers s (stopping e) = Unit
  Complete answers s over =
      (w : Evaluated R E → ℕ) → total (λ r. w (result r)) s.responses ≡ total w answers
  Complete answers s (left e) = Unit

  record Inv (answers : List (Evaluated R E)) (s : State R E) : Type 0 where
    complete : Complete answers s s.main
    waited : s.results_closed ≡ true → total not_gone s.fetches ≡ 0

  total-starting :
      (w : Evaluated R E → ℕ) (vs : List (Evaluated R E))
      → total (to_send w) (map starting vs) ≡ total w vs
  total-starting w [] = refl
  total-starting w (v ∷ vs) = omega (arith, total-starting w vs)

  all_gone-total : (ps : List (FetchPc R E)) → all_gone ps ≡ true → total not_gone ps ≡ 0
  unfolding all_gone
  all_gone-total [] h = refl
  all_gone-total (gone ∷ ps) h = omega (arith, all_gone-total ps h)
  all_gone-total (starting v ∷ ps) h = cc
  all_gone-total (sending v ∷ ps) h = cc

  none_to_send :
      (w : Evaluated R E → ℕ) (ps : List (FetchPc R E))
      → total not_gone ps ≡ 0
      → total (to_send w) ps ≡ 0
  none_to_send w [] h = refl
  none_to_send w (gone ∷ ps) h = omega (arith, none_to_send w ps (omega arith))
  none_to_send w (starting v ∷ ps) h = absurd (omega arith)
  none_to_send w (sending v ∷ ps) h = absurd (omega arith)

  new-Inv : (answers : List (Evaluated R E)) → Inv answers (new answers)
  unfolding new
  new-Inv answers = record {
    complete = (refl, λ w. omega (arith, total-starting w answers));
    waited = λ e. cc;
  }

  module _ (answers : List (Evaluated R E)) (s : State R E) (v : Inv answers s) where
    none_left :
        (i : ℕ) (p : FetchPc R E)
        → get_elem? s.fetches i ≡ some p
        → not_gone p ≡ 1
        → s.results_closed ≢ true
    none_left i p g h e = absurd (omega (arith, v.waited e, total-get_elem? not_gone s.fetches i g))

    kept :
        (m : MainPc E) (t : State R E) {s' : State R E}
        → t.main ≡ m
        → Complete answers t m
        → (t.results_closed ≡ true → total not_gone t.fetches ≡ 0)
        → moves t ≡ moves s'
        → Inv answers s'
    kept m t {s'} f c w h =
        let e : t ≡ s' = cc in
        let i : Inv answers t = record {
          complete = subst (Complete answers t) (sym f) c;
          waited = w;
        } in
        subst (Inv answers) e i

    on_begin-Inv :
        (i : ℕ) (o : Option (FetchPc R E)) (b : Bool) (m : MainPc E) {s' : State R E}
        → get_elem? s.fetches i ≡ o
        → s.main ≡ m
        → s.signalled ≡ b
        → Complete answers s m
        → on_begin s i o b (is_done m) ≡ moves s'
        → Inv answers s'
    unfolding on_begin is_done
    on_begin-Inv i (some (starting x)) true ranging g f k c h = absurd (cc (sym k ∙ c.0))
    on_begin-Inv i (some (starting x)) false ranging g f k c h =
        kept ranging (at s i (sending x)) f
          (k, λ w. omega (arith, c.1 w, total-set (to_send w) s.fetches i (sending x) g))
          (λ e. absurd (none_left i (starting x) g refl e)) h
    on_begin-Inv i (some (starting x)) true (stopping y) g f k c h =
        kept (stopping y) (record (at s i gone) { signalled = false }) f tt
          (λ e. absurd (none_left i (starting x) g refl e)) h
    on_begin-Inv i (some (starting x)) false (stopping y) g f k c h =
        kept (stopping y) (at s i (sending x)) f tt
          (λ e. absurd (none_left i (starting x) g refl e)) h
    on_begin-Inv i (some (starting x)) true over g f k c h =
        kept over (record (at s i gone) { signalled = false }) f c
          (λ e. absurd (none_left i (starting x) g refl e)) h
    on_begin-Inv i (some (starting x)) false over g f k c h =
        kept over (at s i gone) f c (λ e. absurd (none_left i (starting x) g refl e)) h
    on_begin-Inv i (some (starting x)) true (left y) g f k c h =
        kept (left y) (record (at s i gone) { signalled = false }) f tt
          (λ e. absurd (none_left i (starting x) g refl e)) h
    on_begin-Inv i (some (starting x)) false (left y) g f k c h =
        kept (left y) (at s i gone) f tt (λ e. absurd (none_left i (starting x) g refl e)) h
    on_begin-Inv i (some (sending x)) b m g f k c h = cc
    on_begin-Inv i (some gone) b m g f k c h = cc
    on_begin-Inv i none b m g f k c h = cc

    on_deliver-Inv :
        (i : ℕ) (o : Option (FetchPc R E)) (m : MainPc E) {s' : State R E}
        → get_elem? s.fetches i ≡ o
        → s.main ≡ m
        → Complete answers s m
        → on_deliver s i o m ≡ moves s'
        → Inv answers s'
    unfolding on_deliver
    on_deliver-Inv i (some (sending (result r))) ranging g f c h =
        kept ranging (record (at s i gone) { responses = s.responses ++ r ∷ [] }) f
          (
            c.0,
            λ w. omega (
              arith,
              c.1 w,
              total-snoc (λ x. w (result x)) s.responses r,
              total-set (to_send w) s.fetches i gone g,
            ),
          )
          (λ e. absurd (none_left i (sending (result r)) g refl e)) h
    on_deliver-Inv i (some (sending (failed x))) ranging g f c h =
        kept (stopping x) (record (at s i gone) { main = stopping x }) refl tt
          (λ e. absurd (none_left i (sending (failed x)) g refl e)) h
    on_deliver-Inv i (some (sending x)) (stopping e) g f c h = cc
    on_deliver-Inv i (some (sending x)) over g f c h = cc
    on_deliver-Inv i (some (sending x)) (left e) g f c h = cc
    on_deliver-Inv i (some (starting x)) m g f c h = cc
    on_deliver-Inv i (some gone) m g f c h = cc
    on_deliver-Inv i none m g f c h = cc

    on_wait-Inv :
        (b c : Bool) {s' : State R E}
        → all_gone s.fetches ≡ c
        → on_wait s b c ≡ moves s'
        → Inv answers s'
    unfolding on_wait
    on_wait-Inv false true g h =
        kept s.main (record s { results_closed = true }) refl (same s.main v.complete)
          (λ e. all_gone-total s.fetches g) h
      where
        same :
            (m : MainPc E)
            → Complete answers s m
            → Complete answers (record s { results_closed = true }) m
        same ranging c = c
        same (stopping e) c = tt
        same over c = c
        same (left e) c = tt
    on_wait-Inv false false g h = cc
    on_wait-Inv true c g h = cc

    on_main-Inv :
        (m : MainPc E) (b : Bool) {s' : State R E}
        → s.main ≡ m
        → s.results_closed ≡ b
        → Complete answers s m
        → on_main s m b ≡ moves s'
        → Inv answers s'
    unfolding on_main
    on_main-Inv ranging true f g c h =
        kept over (record s { main = over }) refl
          (λ w. omega (arith, c.1 w, none_to_send w s.fetches (v.waited g))) v.waited h
    on_main-Inv ranging false f g c h = cc
    on_main-Inv (stopping e) b f g c h =
        kept (left e) (record s { main = left e; signalled = true }) refl tt v.waited h
    on_main-Inv over b f g c h = cc
    on_main-Inv (left e) b f g c h = cc

    step-Inv : (a : Action) {s' : State R E} → step s a ≡ moves s' → Inv answers s'
    unfolding step
    step-Inv (begin i) h =
        on_begin-Inv i (get_elem? s.fetches i) s.signalled s.main refl refl refl v.complete h
    step-Inv (deliver i) h = on_deliver-Inv i (get_elem? s.fetches i) s.main refl refl v.complete h
    step-Inv close_results h = on_wait-Inv s.results_closed (all_gone s.fetches) refl h
    step-Inv continue_main h = on_main-Inv s.main s.results_closed refl refl v.complete h

  Reach-Inv : {answers : List (Evaluated R E)} {s : State R E} → Reach answers s → Inv answers s
  Reach-Inv {answers} (start e) = subst (Inv answers) (sym e) (new-Inv answers)
  Reach-Inv {answers} (later {s = s} r a h) = step-Inv answers s (Reach-Inv r) a h

  -- At the end of the loop, all results have been received.
  pub over-received :
      {answers : List (Evaluated R E)} {s : State R E}
      → Reach answers s
      → s.main ≡ over
      → (w : Evaluated R E → ℕ) → total (λ r. w (result r)) s.responses ≡ total w answers
  over-received {answers} {s} r f = subst (Complete answers s) f (Reach-Inv r).complete
