-- ===== src/Patterns/Memoize/Laws.antt =====
-- A memoized function has the values of the function.
use awesome_patterns.Base.{ℕ, ◌≡◌, refl, List, [], ◌∷◌, Option, none, some, map, arith, All}
use awesome_patterns.Patterns.Memoize.{Cache, find, memoized, calls}

-- Each entry of the cache is the function's value at its key.
abbrev pub IsCacheOf : (ℕ → ℕ) → Cache → Type 0
IsCacheOf mf = All (λ e. e.1 ≡ mf e.0)

find-value : (mf : ℕ → ℕ) (c : Cache) (k v : ℕ) → IsCacheOf mf c → find c k ≡ some v → v ≡ mf k
unfolding find
find-value mf [] k v w p = cc
find-value mf (e ∷ es) k v w p = ground (arith, w.0, find-value mf es k v w.1)

found-lem :
    (mf : ℕ → ℕ) (c : Cache) (k : ℕ)
    → IsCacheOf mf c
    → (o : Option ℕ) → find c k ≡ o
    → ((memoized mf c k).0 ≡ mf k) × IsCacheOf mf (memoized mf c k).1
unfolding memoized
found-lem mf c k w none p = ground (arith, w)
found-lem mf c k w (some v) p = ground (arith, w, find-value mf c k v w p)

memoized-IsCacheOf :
    (mf : ℕ → ℕ) (c : Cache) (k : ℕ)
    → IsCacheOf mf c
    → ((memoized mf c k).0 ≡ mf k) × IsCacheOf mf (memoized mf c k).1
memoized-IsCacheOf mf c k w = found-lem mf c k w (find c k) refl

-- From a cache whose entries are values of the function, the calls return the function's values.
pub calls_lem : (mf : ℕ → ℕ) (ks : List ℕ) (c : Cache) → IsCacheOf mf c → calls mf c ks ≡ map mf ks
unfolding calls
calls_lem mf [] c w = refl
calls_lem mf (k ∷ ks) c w =
    let m = memoized-IsCacheOf mf c k w in
    let rest = calls_lem mf ks (memoized mf c k).1 m.1 in λ i. m.0 i ∷ rest i
