-- ===== src/Barrier/Safety.antt =====
-- Nobody passes a barrier before all have come to it.
use awesome_patterns.Base.{
  ℕ, zero, suc, ◌≡◌, ◌≢◌, ◌≤◌, refl, ap, Bool, true, false, Option, none, some, get_elem?, arith,
  total, total-get_elem?,
}
use awesome_patterns.Channel.{Receive, value, drained, empty, try_receive}
use awesome_patterns.Barrier.{
  Token, CallerPc, outside, waiting, opening, releasing, passed, State, panics, entered, on_enter,
  on_pass, on_open, on_release, Action, enter, pass, open_sign, release, step, Reach,
}
use awesome_patterns.Barrier.Invariant.{
  is_outside, is_opening, is_releasing, is_passed, bit, bit_at_most, Inv,
}
use awesome_patterns.Barrier.Preservation.{Reach-Inv}

module _ (s : State) (v : Inv s) where
  entered-safe : (i : ℕ) (r : Receive Token) → entered s i r ≢ panics
  unfolding entered
  entered-safe i (value t c) e = cc
  entered-safe i drained e = cc
  entered-safe i empty e = cc

  on_enter-safe : (i : ℕ) (o : Option CallerPc) → on_enter s i o ≢ panics
  unfolding on_enter
  on_enter-safe i (some outside) e = entered-safe i (try_receive s.wait_ch) e
  on_enter-safe i none e = cc
  on_enter-safe i (some waiting) e = cc
  on_enter-safe i (some opening) e = cc
  on_enter-safe i (some releasing) e = cc
  on_enter-safe i (some passed) e = cc

  on_pass-safe : (i : ℕ) (o : Option CallerPc) (b : Bool) → on_pass s i o b ≢ panics
  unfolding on_pass
  on_pass-safe i (some waiting) true e = cc
  on_pass-safe i (some waiting) false e = cc
  on_pass-safe i none b e = cc
  on_pass-safe i (some outside) b e = cc
  on_pass-safe i (some opening) b e = cc
  on_pass-safe i (some releasing) b e = cc
  on_pass-safe i (some passed) b e = cc

  -- The sign is still open where a caller is about to close it.
  pub opening_once : (i : ℕ) → get_elem? s.callers i ≡ some opening → bit s.sign_closed ≡ 0
  opening_once i g =
      let here = total-get_elem? is_opening s.callers i g in
      by_count (total is_outside s.callers) refl here
    where
      by_count :
          (n : ℕ)
          → total is_outside s.callers ≡ n
          → 1 ≤ total is_opening s.callers
          → bit s.sign_closed ≡ 0
      by_count zero e h = omega (arith, v.behind e)
      by_count (suc n) e h = omega (arith, v.before (omega arith))

  on_open-safe :
      (i : ℕ) (o : Option CallerPc) (b : Bool)
      → get_elem? s.callers i ≡ o
      → s.sign_closed ≡ b
      → on_open s i o b ≢ panics
  unfolding on_open
  on_open-safe i (some opening) true g f e = absurd (omega (arith, opening_once i g, ap bit f))
  on_open-safe i (some opening) false g f e = cc
  on_open-safe i none b g f e = cc
  on_open-safe i (some outside) b g f e = cc
  on_open-safe i (some waiting) b g f e = cc
  on_open-safe i (some releasing) b g f e = cc
  on_open-safe i (some passed) b g f e = cc

  -- The other channel is still open where a caller is about to close it.
  pub releasing_once : (i : ℕ) → get_elem? s.callers i ≡ some releasing → bit s.wait_ch.closed ≡ 0
  releasing_once i g =
      omega (arith, v.opened, bit_at_most s.sign_closed, total-get_elem? is_releasing s.callers i g)

  on_release-safe :
      (i : ℕ) (o : Option CallerPc) (b : Bool)
      → get_elem? s.callers i ≡ o
      → s.wait_ch.closed ≡ b
      → on_release s i o b ≢ panics
  unfolding on_release
  on_release-safe i (some releasing) true g f e =
      absurd (omega (arith, releasing_once i g, ap bit f))
  on_release-safe i (some releasing) false g f e = cc
  on_release-safe i none b g f e = cc
  on_release-safe i (some outside) b g f e = cc
  on_release-safe i (some waiting) b g f e = cc
  on_release-safe i (some opening) b g f e = cc
  on_release-safe i (some passed) b g f e = cc

  step-safe : (a : Action) → step s a ≢ panics
  unfolding step
  step-safe (enter i) = on_enter-safe i (get_elem? s.callers i)
  step-safe (pass i) = on_pass-safe i (get_elem? s.callers i) s.sign_closed
  step-safe (open_sign i) = on_open-safe i (get_elem? s.callers i) s.sign_closed refl refl
  step-safe (release i) = on_release-safe i (get_elem? s.callers i) s.wait_ch.closed refl refl

  none_outside : (i : ℕ) → get_elem? s.callers i ≡ some passed → total is_outside s.callers ≡ 0
  none_outside i g =
      let here = total-get_elem? is_passed s.callers i g in
      by_count (total is_outside s.callers) refl here
    where
      by_count :
          (n : ℕ)
          → total is_outside s.callers ≡ n
          → 1 ≤ total is_passed s.callers
          → total is_outside s.callers ≡ 0
      by_count zero e h = e
      by_count (suc n) e h = absurd (omega (arith, v.before (omega arith), v.over h))

-- Where as many goroutines call `Await` as the barrier is made for, once each: a goroutine that has
-- passed finds that each goroutine has entered its call, and no step panics, so that each channel is
-- closed once.
pub await-waits_for_all :
    {gos : ℕ} {s : State}
    → Reach gos s
    → ((i j : ℕ) → get_elem? s.callers i ≡ some passed → get_elem? s.callers j ≢ some outside)
      × ((a : Action) → step s a ≢ panics)
await-waits_for_all {s = s} r =
    let v = Reach-Inv r in
    (
      λ i j g h.
          absurd (omega (arith, none_outside s v i g, total-get_elem? is_outside s.callers j h)),
      step-safe s v,
    )
