-- ===== src/Barrier/Ending.antt =====
-- All goroutines pass a barrier.
use awesome_patterns.Base.{
  ℕ, zero, suc, ◌≡◌, ◌<◌, ◌⊎◌, inl, inr, refl, ap, Bool, true, false, Option, none, some, get_elem?,
  arith, total, total-set, total-pos, total-get_elem?, Ends, ends,
}
use awesome_patterns.Channel.{Receive, value, drained, empty, try_receive}
use awesome_patterns.Barrier.{
  Token, CallerPc, outside, waiting, opening, releasing, passed, State, moves, at, entered,
  on_enter, on_pass, on_open, on_release, Action, enter, pass, open_sign, release, step, Reach,
}
use awesome_patterns.Barrier.Invariant.{is_outside, is_opening, bit, Inv}
use awesome_patterns.Barrier.Preservation.{step-Inv, Reach-Inv}
use awesome_patterns.Barrier.Safety.{opening_once, releasing_once}

abbrev caller_work : CallerPc → ℕ
caller_work outside = 3
caller_work waiting = 1
caller_work opening = 2
caller_work releasing = 1
caller_work passed = 0

abbrev work_left : State → ℕ
work_left s = total caller_work s.callers

-- Every goroutine has passed.
abbrev IsOver : State → Type 0
IsOver s = (i : ℕ) (p : CallerPc) → get_elem? s.callers i ≡ some p → p ≡ passed

abbrev Next : State → State → Type 0
Next s t = (a : Action) × (step s a ≡ moves t)

module _ (s : State) where
  entered-lt :
      (i : ℕ) (r : Receive Token) {s' : State}
      → get_elem? s.callers i ≡ some outside
      → entered s i r ≡ moves s'
      → work_left s' < work_left s
  unfolding entered
  entered-lt i (value t c) g e = ground (arith, total-set caller_work s.callers i waiting g)
  entered-lt i drained g e = ground (arith, total-set caller_work s.callers i waiting g)
  entered-lt i empty g e = ground (arith, total-set caller_work s.callers i opening g)

  on_enter-lt :
      (i : ℕ) (o : Option CallerPc) {s' : State}
      → get_elem? s.callers i ≡ o
      → on_enter s i o ≡ moves s'
      → work_left s' < work_left s
  unfolding on_enter
  on_enter-lt i (some outside) g e = entered-lt i (try_receive s.wait_ch) g e
  on_enter-lt i none g e = cc
  on_enter-lt i (some waiting) g e = cc
  on_enter-lt i (some opening) g e = cc
  on_enter-lt i (some releasing) g e = cc
  on_enter-lt i (some passed) g e = cc

  on_pass-lt :
      (i : ℕ) (o : Option CallerPc) (b : Bool) {s' : State}
      → get_elem? s.callers i ≡ o
      → on_pass s i o b ≡ moves s'
      → work_left s' < work_left s
  unfolding on_pass
  on_pass-lt i (some waiting) true g e = ground (arith, total-set caller_work s.callers i passed g)
  on_pass-lt i (some waiting) false g e = cc
  on_pass-lt i none b g e = cc
  on_pass-lt i (some outside) b g e = cc
  on_pass-lt i (some opening) b g e = cc
  on_pass-lt i (some releasing) b g e = cc
  on_pass-lt i (some passed) b g e = cc

  on_open-lt :
      (i : ℕ) (o : Option CallerPc) (b : Bool) {s' : State}
      → get_elem? s.callers i ≡ o
      → on_open s i o b ≡ moves s'
      → work_left s' < work_left s
  unfolding on_open
  on_open-lt i (some opening) false g e =
      ground (arith, total-set caller_work s.callers i releasing g)
  on_open-lt i (some opening) true g e = cc
  on_open-lt i none b g e = cc
  on_open-lt i (some outside) b g e = cc
  on_open-lt i (some waiting) b g e = cc
  on_open-lt i (some releasing) b g e = cc
  on_open-lt i (some passed) b g e = cc

  on_release-lt :
      (i : ℕ) (o : Option CallerPc) (b : Bool) {s' : State}
      → get_elem? s.callers i ≡ o
      → on_release s i o b ≡ moves s'
      → work_left s' < work_left s
  unfolding on_release
  on_release-lt i (some releasing) false g e =
      ground (arith, total-set caller_work s.callers i passed g)
  on_release-lt i (some releasing) true g e = cc
  on_release-lt i none b g e = cc
  on_release-lt i (some outside) b g e = cc
  on_release-lt i (some waiting) b g e = cc
  on_release-lt i (some opening) b g e = cc
  on_release-lt i (some passed) b g e = cc

  step-lt : (a : Action) {s' : State} → step s a ≡ moves s' → work_left s' < work_left s
  unfolding step
  step-lt (enter i) e = on_enter-lt i (get_elem? s.callers i) refl e
  step-lt (pass i) e = on_pass-lt i (get_elem? s.callers i) s.sign_closed refl e
  step-lt (open_sign i) e = on_open-lt i (get_elem? s.callers i) s.sign_closed refl e
  step-lt (release i) e = on_release-lt i (get_elem? s.callers i) s.wait_ch.closed refl e

  abbrev Enabled : Type 0
  Enabled = (t : State) × Next s t

  enters :
      (i : ℕ) (r : Receive Token)
      → get_elem? s.callers i ≡ some outside
      → try_receive s.wait_ch ≡ r
      → Enabled
  unfolding step on_enter entered
  enters i (value t c) g e =
      (record (at s i waiting) { wait_ch = c }, (enter i, ground (arith, g, e)))
  enters i drained g e = (at s i waiting, (enter i, ground (arith, g, e)))
  enters i empty g e = (at s i opening, (enter i, ground (arith, g, e)))

  module _ (v : Inv s) where
    opens : (i : ℕ) (b : Bool) → get_elem? s.callers i ≡ some opening → s.sign_closed ≡ b → Enabled
    unfolding step on_open
    opens i true g f = absurd (omega (arith, opening_once s v i g, ap bit f))
    opens i false g f =
        (record (at s i releasing) { sign_closed = true }, (open_sign i, ground (arith, g, f)))

    releases :
        (i : ℕ) (b : Bool) → get_elem? s.callers i ≡ some releasing → s.wait_ch.closed ≡ b → Enabled
    unfolding step on_release
    releases i true g f = absurd (omega (arith, releasing_once s v i g, ap bit f))
    releases i false g f = (
      record (at s i passed) { wait_ch = record (s.wait_ch) { closed = true } },
      (release i, ground (arith, g, f)),
    )

    outside_acts :
        (i : ℕ) (p : CallerPc) → get_elem? s.callers i ≡ some p → 0 < is_outside p → Enabled
    outside_acts i outside g h = enters i (try_receive s.wait_ch) g refl
    outside_acts i waiting g h = absurd (omega arith)
    outside_acts i opening g h = absurd (omega arith)
    outside_acts i releasing g h = absurd (omega arith)
    outside_acts i passed g h = absurd (omega arith)

    opening_acts :
        (i : ℕ) (p : CallerPc) → get_elem? s.callers i ≡ some p → 0 < is_opening p → Enabled
    opening_acts i opening g h = opens i s.sign_closed g refl
    opening_acts i outside g h = absurd (omega arith)
    opening_acts i waiting g h = absurd (omega arith)
    opening_acts i releasing g h = absurd (omega arith)
    opening_acts i passed g h = absurd (omega arith)

    -- While the sign is open, a caller has still to enter or one is about to close it.
    waits : (n : ℕ) → total is_outside s.callers ≡ n → bit s.sign_closed ≡ 0 → Enabled
    waits (suc n) e f =
        let (j, p, g, h) = total-pos is_outside s.callers (omega arith) in outside_acts j p g h
    waits zero e f =
        let (j, p, g, h) = total-pos is_opening s.callers (omega (arith, v.behind e)) in
        opening_acts j p g h

    passes : (i : ℕ) (b : Bool) → get_elem? s.callers i ≡ some waiting → s.sign_closed ≡ b → Enabled
    unfolding step on_pass
    passes i true g f = (at s i passed, (pass i, ground (arith, g, f)))
    passes i false g f = waits (total is_outside s.callers) refl (ap bit f)

    caller_acts :
        (i : ℕ) (p : CallerPc) → get_elem? s.callers i ≡ some p → 0 < caller_work p → Enabled
    caller_acts i outside g h = enters i (try_receive s.wait_ch) g refl
    caller_acts i waiting g h = passes i s.sign_closed g refl
    caller_acts i opening g h = opens i s.sign_closed g refl
    caller_acts i releasing g h = releases i s.wait_ch.closed g refl
    caller_acts i passed g h = absurd (omega arith)

    acts_or_done : (n : ℕ) → work_left s ≡ n → IsOver s ⊎ Enabled
    acts_or_done zero e =
        inl (λ i p g. no_work p (omega (arith, total-get_elem? caller_work s.callers i g)))
      where
        no_work : (p : CallerPc) → caller_work p ≡ 0 → p ≡ passed
        no_work passed h = refl
        no_work outside h = absurd (omega arith)
        no_work waiting h = absurd (omega arith)
        no_work opening h = absurd (omega arith)
        no_work releasing h = absurd (omega arith)
    acts_or_done (suc n) e =
        let (j, p, g, h) = total-pos caller_work s.callers (omega arith) in
        inr (caller_acts j p g h)

-- Where as many goroutines call `Await` as the barrier is made for, once each, there is from every
-- state a run at whose end all have passed; and every step makes the work left less, so that no order
-- of the steps goes on for ever.
await-Ends :
    {gos : ℕ} {s : State}
    → Reach gos s
    → Ends Next IsOver s × ((t : State) → Next s t → work_left t < work_left s)
await-Ends {s = s} r = (
  ends Next IsOver Inv work_left (λ q t v n. step-Inv q v n.0 n.1) (λ q t v n. step-lt q n.0 n.1)
      (λ q v. acts_or_done q v (work_left q) refl) s (Reach-Inv r),
  λ t n. step-lt s n.0 n.1,
)
