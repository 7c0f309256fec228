-- ===== src/Barrier/Preservation.antt =====
-- Each step of a caller keeps the invariant.
use mathlib.Core.Path.{subst}
use awesome_patterns.Base.{
  ℕ, ◌≡◌, refl, ap, Bool, true, false, List, [], ◌∷◌, Option, none, some, get_elem?, set, arith,
  length, total-set, total-get_elem?,
}
use awesome_patterns.Channel.{Chan, try_receive}
use awesome_patterns.Barrier.{
  Token, CallerPc, outside, waiting, opening, releasing, passed, State, moves, entered, on_enter,
  on_pass, on_open, on_release, Action, enter, pass, open_sign, release, step, Reach, start, later,
}
use awesome_patterns.Barrier.Invariant.{
  is_outside, is_opening, is_releasing, is_passed, bit, bit_at_most, Inv, new-Inv,
}

module _ (s : State) (v : Inv s) where
  -- A caller goes on, with the channels as they are then.
  abbrev Moved : ℕ → CallerPc → Bool → Chan Token → State
  Moved i p b c = record s { callers = set s.callers i p; sign_closed = b; wait_ch = c }

  entered-Inv :
      (i : ℕ) (ts : List Token) (b : Bool) {s' : State}
      → get_elem? s.callers i ≡ some outside
      → s.wait_ch.buffer ≡ ts
      → s.wait_ch.closed ≡ b
      → entered s i (try_receive s.wait_ch) ≡ moves s'
      → Inv s'
  unfolding entered try_receive
  entered-Inv i (t ∷ ts) b g f h e =
      let here = total-get_elem? is_outside s.callers i g in
      let c = record (s.wait_ch) { buffer = ts } in
      subst Inv {x = Moved i waiting s.sign_closed c} (ground (arith, f, e)) (record {
        tokens = omega (arith, v.tokens, ap length f, total-set is_outside s.callers i waiting g);
        before =
            λ k. omega (arith, v.before (omega arith), total-set is_opening s.callers i waiting g);
        behind = λ k.
            absurd
              (omega (arith, v.tokens, ap length f, total-set is_outside s.callers i waiting g));
        opened = omega (arith, v.opened, total-set is_releasing s.callers i waiting g);
        over =
            λ k. omega (arith, v.over (omega (arith, total-set is_passed s.callers i waiting g)));
      })
  entered-Inv i [] true g f h e = absurd (
      omega (
        arith,
        v.before (omega (arith, total-get_elem? is_outside s.callers i g)),
        v.opened,
        ap bit h,
      ))
  entered-Inv i [] false g f h e =
      let here = total-get_elem? is_outside s.callers i g in
      subst Inv {x = Moved i opening s.sign_closed s.wait_ch} (ground (arith, f, h, e)) (record {
        tokens = omega (arith, v.tokens, ap length f, total-set is_outside s.callers i opening g);
        before = λ k.
            absurd
              (omega (arith, v.tokens, ap length f, total-set is_outside s.callers i opening g));
        behind =
            λ k. omega (arith, v.before (omega arith), total-set is_opening s.callers i opening g);
        opened = omega (arith, v.opened, total-set is_releasing s.callers i opening g);
        over =
            λ k. omega (arith, v.over (omega (arith, total-set is_passed s.callers i opening g)));
      })

  on_enter-Inv :
      (i : ℕ) (o : Option CallerPc) {s' : State}
      → get_elem? s.callers i ≡ o
      → on_enter s i o ≡ moves s'
      → Inv s'
  unfolding on_enter
  on_enter-Inv i (some outside) g e = entered-Inv i s.wait_ch.buffer s.wait_ch.closed g refl refl e
  on_enter-Inv i none g e = cc
  on_enter-Inv i (some waiting) g e = cc
  on_enter-Inv i (some opening) g e = cc
  on_enter-Inv i (some releasing) g e = cc
  on_enter-Inv i (some passed) g e = cc

  on_pass-Inv :
      (i : ℕ) (o : Option CallerPc) (b : Bool) {s' : State}
      → get_elem? s.callers i ≡ o
      → s.sign_closed ≡ b
      → on_pass s i o b ≡ moves s'
      → Inv s'
  unfolding on_pass
  on_pass-Inv i (some waiting) true g f e =
      subst Inv {x = Moved i passed s.sign_closed s.wait_ch} (cc) (record {
        tokens = omega (arith, v.tokens, total-set is_outside s.callers i passed g);
        before = λ k. omega (
          arith,
          v.before (omega (arith, total-set is_outside s.callers i passed g)),
          total-set is_opening s.callers i passed g,
        );
        behind = λ k. omega (
          arith,
          v.behind (omega (arith, total-set is_outside s.callers i passed g)),
          total-set is_opening s.callers i passed g,
        );
        opened = omega (arith, v.opened, total-set is_releasing s.callers i passed g);
        over = λ k. ap bit f;
      })
  on_pass-Inv i (some waiting) false g f e = cc
  on_pass-Inv i none b g f e = cc
  on_pass-Inv i (some outside) b g f e = cc
  on_pass-Inv i (some opening) b g f e = cc
  on_pass-Inv i (some releasing) b g f e = cc
  on_pass-Inv i (some passed) b g f e = cc

  on_open-Inv :
      (i : ℕ) (o : Option CallerPc) (b : Bool) {s' : State}
      → get_elem? s.callers i ≡ o
      → s.sign_closed ≡ b
      → on_open s i o b ≡ moves s'
      → Inv s'
  unfolding on_open
  on_open-Inv i (some opening) false g f e =
      let here = total-get_elem? is_opening s.callers i g in
      subst Inv {x = Moved i releasing true s.wait_ch} (cc) (record {
        tokens = omega (arith, v.tokens, total-set is_outside s.callers i releasing g);
        before = λ k.
            absurd (
              omega
                (arith, v.before (omega (arith, total-set is_outside s.callers i releasing g))));
        behind = λ k. omega (
          arith,
          v.behind (omega (arith, total-set is_outside s.callers i releasing g)),
          ap bit f,
          total-set is_opening s.callers i releasing g,
        );
        opened = omega (arith, v.opened, ap bit f, total-set is_releasing s.callers i releasing g);
        over = λ k. refl;
      })
  on_open-Inv i (some opening) true g f e = cc
  on_open-Inv i none b g f e = cc
  on_open-Inv i (some outside) b g f e = cc
  on_open-Inv i (some waiting) b g f e = cc
  on_open-Inv i (some releasing) b g f e = cc
  on_open-Inv i (some passed) b g f e = cc

  on_release-Inv :
      (i : ℕ) (o : Option CallerPc) (b : Bool) {s' : State}
      → get_elem? s.callers i ≡ o
      → s.wait_ch.closed ≡ b
      → on_release s i o b ≡ moves s'
      → Inv s'
  unfolding on_release
  on_release-Inv i (some releasing) false g f e =
      let here = total-get_elem? is_releasing s.callers i g in
      let c = record (s.wait_ch) { closed = true } in
      subst Inv {x = Moved i passed s.sign_closed c} (cc) (record {
        tokens = omega (arith, v.tokens, total-set is_outside s.callers i passed g);
        before = λ k. omega (
          arith,
          v.before (omega (arith, total-set is_outside s.callers i passed g)),
          total-set is_opening s.callers i passed g,
        );
        behind = λ k. omega (
          arith,
          v.behind (omega (arith, total-set is_outside s.callers i passed g)),
          total-set is_opening s.callers i passed g,
        );
        opened = omega (arith, v.opened, ap bit f, total-set is_releasing s.callers i passed g);
        over = λ k. omega (arith, v.opened, here, bit_at_most s.sign_closed);
      })
  on_release-Inv i (some releasing) true g f e = cc
  on_release-Inv i none b g f e = cc
  on_release-Inv i (some outside) b g f e = cc
  on_release-Inv i (some waiting) b g f e = cc
  on_release-Inv i (some opening) b g f e = cc
  on_release-Inv i (some passed) b g f e = cc

  pub step-Inv : (a : Action) {s' : State} → step s a ≡ moves s' → Inv s'
  unfolding step
  step-Inv (enter i) e = on_enter-Inv i (get_elem? s.callers i) refl e
  step-Inv (pass i) e = on_pass-Inv i (get_elem? s.callers i) s.sign_closed refl refl e
  step-Inv (open_sign i) e = on_open-Inv i (get_elem? s.callers i) s.sign_closed refl refl e
  step-Inv (release i) e = on_release-Inv i (get_elem? s.callers i) s.wait_ch.closed refl refl e

pub Reach-Inv : {gos : ℕ} {s : State} → Reach gos s → Inv s
Reach-Inv {gos} {s} (start e f g) = new-Inv gos s e f g
Reach-Inv (later {s = s} r a e) = step-Inv s (Reach-Inv r) a e
