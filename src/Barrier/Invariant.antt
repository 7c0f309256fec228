-- ===== src/Barrier/Invariant.antt =====
-- How many callers of a barrier are where, and what its channels say of that.
use awesome_patterns.Base.{
  ℕ, zero, suc, ◌+◌, ◌-◌, ◌≡◌, ◌<◌, ◌≤◌, refl, ap, ◌∙◌, Bool, true, false, [], ◌∷◌, ◌++◌, some,
  replicate, arith, length, length-append, total, total-replicate,
}
use awesome_patterns.Channel.{Chan, make, try_send}
use awesome_patterns.Barrier.{
  Token, token, CallerPc, outside, waiting, opening, releasing, passed, State, fill,
  new_chan_barrier,
}

abbrev pub is_outside : CallerPc → ℕ
is_outside outside = 1
is_outside waiting = 0
is_outside opening = 0
is_outside releasing = 0
is_outside passed = 0

abbrev pub is_opening : CallerPc → ℕ
is_opening outside = 0
is_opening waiting = 0
is_opening opening = 1
is_opening releasing = 0
is_opening passed = 0

abbrev pub is_releasing : CallerPc → ℕ
is_releasing outside = 0
is_releasing waiting = 0
is_releasing opening = 0
is_releasing releasing = 1
is_releasing passed = 0

abbrev pub is_passed : CallerPc → ℕ
is_passed outside = 0
is_passed waiting = 0
is_passed opening = 0
is_passed releasing = 0
is_passed passed = 1

abbrev pub bit : Bool → ℕ
bit true = 1
bit false = 0

pub bit_at_most : (b : Bool) → bit b ≤ 1
bit_at_most true = omega arith
bit_at_most false = omega arith

pub record Inv (s : State) : Type 0 where
  pub tokens : length s.wait_ch.buffer ≡ total is_outside s.callers - 1
  pub before : 0 < total is_outside s.callers → total is_opening s.callers + bit s.sign_closed ≡ 0
  pub behind : total is_outside s.callers ≡ 0 → total is_opening s.callers + bit s.sign_closed ≡ 1
  pub opened : bit s.sign_closed ≡ total is_releasing s.callers + bit s.wait_ch.closed
  pub over : 0 < total is_passed s.callers → bit s.sign_closed ≡ 1

-- The loop of `NewChanBarrier` does not wait.
pub fill-fills :
    (n : ℕ) (c : Chan Token)
    → c.closed ≡ false
    → length c.buffer + n ≤ c.capacity
    → (c' : Chan Token) × (fill n c ≡ some c')
      × (length c'.buffer ≡ length c.buffer + n)
      × (c'.closed ≡ false)
unfolding fill try_send
fill-fills zero c e h = (c, refl, omega arith, e)
fill-fills (suc n) c e h =
    let q = record c { buffer = c.buffer ++ token ∷ [] } in
    let l = length-append c.buffer (token ∷ []) in
    let (c', p, k, o) = fill-fills n q e (omega (arith, l)) in
    (c', ground (arith, p, e, h), omega (arith, k, l), o)

all_outside : (n : ℕ) → total is_outside (replicate n outside) ≡ n
all_outside zero = refl
all_outside (suc n) = omega (arith, all_outside n)

pub new-Inv :
    (gos : ℕ) (s : State)
    → new_chan_barrier gos ≡ some s.wait_ch
    → s.sign_closed ≡ false
    → s.callers ≡ replicate gos outside
    → Inv s
unfolding new_chan_barrier
new-Inv zero s e f g = cc
new-Inv (suc n) s e f g =
    let (c, p, k, o) = fill-fills n (make n) refl (omega arith) in
    let same : c ≡ s.wait_ch = cc in
    let room = ap (λ (d : Chan Token). length d.buffer) same in
    let shut = ap (λ (d : Chan Token). bit d.closed) same in
    let count = λ (w : CallerPc → ℕ). ap (total w) g in
    let n_outside : total is_outside s.callers ≡ suc n = count is_outside ∙ all_outside (suc n) in
    record {
      tokens = omega (arith, room, k, n_outside);
      before = λ h.
          omega
            (arith, ap bit f, count is_opening, total-replicate is_opening (suc n) outside refl);
      behind = λ h. absurd (omega (arith, n_outside));
      opened = omega (
        arith,
        ap bit f,
        shut,
        ap bit o,
        count is_releasing,
        total-replicate is_releasing (suc n) outside refl,
      );
      over = λ h.
          absurd (omega (arith, count is_passed, total-replicate is_passed (suc n) outside refl));
    }
