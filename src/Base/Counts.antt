-- ===== src/Base/Counts.antt =====
-- How often a number is in a list, and what a list of goroutines has at an index.
use Prim.Native.Nat.{ℕ, zero, suc, ◌+◌, ◌≤◌, ◌<◌}
use mathlib.Core.Path.{◌≡◌, refl, ap, subst}
use mathlib.Core.Logic.{◌≢◌, ite}
use mathlib.Core.List.{List, [], ◌∷◌, ◌++◌}
use mathlib.Core.Option.{none, some, some-injective}
use native.Mathlib.Decide.{ℕ_discrete}
use native.Mathlib.Omega.{arith}
use awesome_patterns.Base.Lists.{length, replicate, get_elem?, set, total, total-get_elem?}

-- 1 if the two are one.
abbrev pub same : ℕ → ℕ → ℕ
same x y = ite (ℕ_discrete x y) 1 0

abbrev pub count : ℕ → List ℕ → ℕ
count x [] = 0
count x (y ∷ ys) = same x y + count x ys

pub count-snoc : (x y : ℕ) (ys : List ℕ) → count x (ys ++ y ∷ []) ≡ count x ys + same x y
count-snoc x y [] = omega arith
count-snoc x y (z ∷ zs) = omega (arith, count-snoc x y zs)

module _ {ℓ} {A : Type ℓ} where
  pub total-snoc : (w : A → ℕ) (xs : List A) (a : A) → total w (xs ++ a ∷ []) ≡ total w xs + w a
  total-snoc w [] a = omega arith
  total-snoc w (x ∷ xs) a = omega (arith, total-snoc w xs a)

  pub total-append : (w : A → ℕ) (xs ys : List A) → total w (xs ++ ys) ≡ total w xs + total w ys
  total-append w [] ys = omega arith
  total-append w (x ∷ xs) ys = omega (arith, total-append w xs ys)

  pub get_elem?-set_self :
      (xs : List A) (i : ℕ) (v : A) {old : A}
      → get_elem? xs i ≡ some old
      → get_elem? (set xs i v) i ≡ some v
  get_elem?-set_self [] i v e = cc
  get_elem?-set_self (x ∷ xs) zero v e = refl
  get_elem?-set_self (x ∷ xs) (suc i) v e = get_elem?-set_self xs i v e

  pub get_elem?-set_other :
      (xs : List A) (i j : ℕ) (v : A) → i ≢ j → get_elem? (set xs i v) j ≡ get_elem? xs j
  get_elem?-set_other [] i j v h = refl
  get_elem?-set_other (x ∷ xs) zero zero v h = absurd (h refl)
  get_elem?-set_other (x ∷ xs) zero (suc j) v h = refl
  get_elem?-set_other (x ∷ xs) (suc i) zero v h = refl
  get_elem?-set_other (x ∷ xs) (suc i) (suc j) v h =
      get_elem?-set_other xs i j v (λ e. h (omega arith))

  pub set-set : (xs : List A) (i : ℕ) (u v : A) → set (set xs i u) i v ≡ set xs i v
  set-set [] i u v = refl
  set-set (x ∷ xs) zero u v = refl
  set-set (x ∷ xs) (suc i) u v = ap (◌∷◌ x) (set-set xs i u v)

  pub get_elem?-lt : (xs : List A) (i : ℕ) → i < length xs → get_elem? xs i ≢ none
  get_elem?-lt [] i h e = absurd (omega arith)
  get_elem?-lt (x ∷ xs) zero h e = cc
  get_elem?-lt (x ∷ xs) (suc i) h e = get_elem?-lt xs i (omega arith) e

  pub get_elem?-replicate : (n i : ℕ) (a : A) {b : A} → get_elem? (replicate n a) i ≡ some b → a ≡ b
  get_elem?-replicate zero i a e = cc
  get_elem?-replicate (suc n) zero a e = some-injective _ _ e
  get_elem?-replicate (suc n) (suc i) a e = get_elem?-replicate n i a e

  -- A predicate of every element, kept by a write of an element that has it.
  pub everywhere-set {κ} :
      (P : A → Type κ) (xs : List A) (i : ℕ) (v : A)
      → P v
      → ((j : ℕ) (a : A) → get_elem? xs j ≡ some a → P a)
      → (j : ℕ) (a : A) → get_elem? (set xs i v) j ≡ some a
      → P a
  everywhere-set P [] i v pv h j a e = cc
  everywhere-set P (x ∷ xs) zero v pv h zero a e = subst P (some-injective _ _ e) pv
  everywhere-set P (x ∷ xs) zero v pv h (suc j) a e = h (suc j) a e
  everywhere-set P (x ∷ xs) (suc i) v pv h zero a e = h zero a e
  everywhere-set P (x ∷ xs) (suc i) v pv h (suc j) a e =
      everywhere-set P xs i v pv (λ j. h (suc j)) j a e

  -- The same of a predicate of the index as well.
  pub indexed-set {κ} :
      (P : ℕ → A → Type κ) (xs : List A) (i : ℕ) (v : A)
      → P i v
      → ((j : ℕ) (a : A) → get_elem? xs j ≡ some a → P j a)
      → (j : ℕ) (a : A) → get_elem? (set xs i v) j ≡ some a
      → P j a
  indexed-set P [] i v pv h j a e = cc
  indexed-set P (x ∷ xs) zero v pv h zero a e = subst (P 0) (some-injective _ _ e) pv
  indexed-set P (x ∷ xs) zero v pv h (suc j) a e = h (suc j) a e
  indexed-set P (x ∷ xs) (suc i) v pv h zero a e = h zero a e
  indexed-set P (x ∷ xs) (suc i) v pv h (suc j) a e =
      indexed-set (λ k. P (suc k)) xs i v pv (λ k. h (suc k)) j a e

  -- The same, where the predicate of the others may rest on their being others.
  pub others-set {κ} :
      (P : ℕ → A → Type κ) (xs : List A) (i : ℕ) (v : A)
      → P i v
      → ((j : ℕ) (a : A) → i ≢ j → get_elem? xs j ≡ some a → P j a)
      → (j : ℕ) (a : A) → get_elem? (set xs i v) j ≡ some a
      → P j a
  others-set P [] i v pv h j a e = cc
  others-set P (x ∷ xs) zero v pv h zero a e = subst (P 0) (some-injective _ _ e) pv
  others-set P (x ∷ xs) zero v pv h (suc j) a e = h (suc j) a (λ f. omega (arith, f)) e
  others-set P (x ∷ xs) (suc i) v pv h zero a e = h zero a (λ f. omega (arith, f)) e
  others-set P (x ∷ xs) (suc i) v pv h (suc j) a e =
      others-set (λ k. P (suc k)) xs i v pv (λ k b g. h (suc k) b (λ f. g (omega arith))) j a e

  pub length-total : (xs : List A) → length xs ≡ total (λ a. 1) xs
  length-total [] = refl
  length-total (x ∷ xs) = omega (arith, length-total xs)

  -- What holds of every element of two lists holds of every element of both in a row.
  pub everywhere-append {κ} :
      (P : A → Type κ) (xs ys : List A)
      → ((j : ℕ) (a : A) → get_elem? xs j ≡ some a → P a)
      → ((j : ℕ) (a : A) → get_elem? ys j ≡ some a → P a)
      → (j : ℕ) (a : A) → get_elem? (xs ++ ys) j ≡ some a
      → P a
  everywhere-append P [] ys h g j a e = g j a e
  everywhere-append P (x ∷ xs) ys h g zero a e = h zero a e
  everywhere-append P (x ∷ xs) ys h g (suc j) a e =
      everywhere-append P xs ys (λ j. h (suc j)) g j a e

  pub everywhere-one {κ} :
      (P : A → Type κ) (v : A) → P v → (j : ℕ) (a : A) → get_elem? (v ∷ []) j ≡ some a → P a
  everywhere-one P v h zero a e = subst P (some-injective _ _ e) h
  everywhere-one P v h (suc j) a e = cc

  -- Two places of a list together have at most its total.
  pub total-two :
      (w : A → ℕ) (xs : List A) (i j : ℕ) {a b : A}
      → get_elem? xs i ≡ some a
      → get_elem? xs j ≡ some b
      → i ≢ j
      → w a + w b ≤ total w xs
  total-two w [] i j e f h = cc
  total-two w (x ∷ xs) zero zero e f h = absurd (h refl)
  total-two w (x ∷ xs) zero (suc j) e f h = ground (arith, total-get_elem? w xs j f)
  total-two w (x ∷ xs) (suc i) zero e f h = ground (arith, total-get_elem? w xs i e)
  total-two w (x ∷ xs) (suc i) (suc j) e f h =
      omega (arith, total-two w xs i j e f (λ g. h (omega arith)))

  -- A place of a list that is not 0.
  abbrev pub Place : (A → ℕ) → List A → Type ℓ
  Place w xs = (i : ℕ) × (a : A) × (get_elem? xs i ≡ some a) × (0 < w a)

  first_or :
      (w : A → ℕ) (x : A) (xs : List A) (k : ℕ)
      → w x ≡ k
      → (w x ≡ 0 → Place w xs)
      → Place w (x ∷ xs)
  first_or w x xs (suc k) e f = (0, x, refl, omega arith)
  first_or w x xs zero e f = let (i, a, g, h) = f e in (suc i, a, g, h)

  -- A positive total has such a place.
  pub total-pos : (w : A → ℕ) (xs : List A) → 0 < total w xs → Place w xs
  total-pos w [] h = absurd (omega arith)
  total-pos w (x ∷ xs) h = first_or w x xs (w x) refl (λ e. total-pos w xs (omega arith))
