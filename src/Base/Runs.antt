-- ===== src/Base/Runs.antt =====
-- Runs of a step relation, and runs that come to an end.
use Prim.Native.Nat.{ℕ, zero, suc, ◌≤◌, ◌<◌}
use mathlib.Core.Logic.{◌⊎◌, inl, inr}
use native.Mathlib.Omega.{arith}

-- A sequence of steps from one state to another.
pub data Steps {A : Type 0} (Next : A → A → Type 0) : A → A → Type 0 where
  stay : {s : A} → Steps Next s s
  go : {s t u : A} → Next s t → Steps Next t u → Steps Next s u

module _ {A : Type 0} (Next : A → A → Type 0) (IsOver : A → Type 0) where
  -- A run from a state to one that is over.
  abbrev pub Ends : A → Type 0
  Ends s = (t : A) × Steps Next s t × IsOver t

  module _ (Inv : A → Type 0) (work : A → ℕ) (keeps : (s t : A) → Inv s → Next s t → Inv t)
      (less : (s t : A) → Inv s → Next s t → work t < work s)
      (acts : (s : A) → Inv s → IsOver s ⊎ ((t : A) × Next s t)) where
    run_within : (k : ℕ) (s : A) → Inv s → work s ≤ k → IsOver s ⊎ ((t : A) × Next s t) → Ends s
    run_within k s v b (inl o) = (s, stay, o)
    run_within zero s v b (inr (t, n)) = absurd (omega (arith, less s t v n))
    run_within (suc k) s v b (inr (t, n)) =
        let v' = keeps s t v n in
        let (u, run, o) = run_within k t v' (omega (arith, less s t v n)) (acts t v') in
        (u, go n run, o)

    -- Where each step leaves less to do and there is a step until a state is over, a run comes to
    -- its end.
    pub ends : (s : A) → Inv s → Ends s
    ends s v = run_within (work s) s v (omega arith) (acts s v)
