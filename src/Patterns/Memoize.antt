-- ===== src/Patterns/Memoize.antt =====
-- functions/fibonacci.go: `Memoize` and the function that it is used with.
pub mod Laws
mod Examples
use awesome_patterns.Base.{
  ℕ, zero, suc, ◌+◌, List, [], ◌∷◌, Option, none, some, if◌then◌else◌, ◌==◌,
}

-- The cache, the newest entry first; a key is written at most once.
abbrev pub Cache : Type 0
Cache = List (ℕ × ℕ)

pub find : Cache → ℕ → Option ℕ
find [] key = none
find (e ∷ es) key = if e.0 == key then some e.1 else find es key

-- One call of the function that `Memoize` returns: the value and the cache after it.
pub memoized : (ℕ → ℕ) → Cache → ℕ → ℕ × Cache
unfolding find
memoized mf cache key = elim (find cache key) [
  | some val ↦ (val, cache)
  | none ↦ (mf key, (key, mf key) ∷ cache)
]

-- Calls in sequence.
pub calls : (ℕ → ℕ) → Cache → List ℕ → List ℕ
unfolding memoized
calls mf cache [] = []
calls mf cache (k ∷ ks) = (memoized mf cache k).0 ∷ calls mf (memoized mf cache k).1 ks

-- `fib` on a number that is not negative.
pub fib : ℕ → ℕ
fib zero = 0
fib (suc zero) = 1
fib (suc (suc zero)) = 1
fib (suc (suc (suc x))) = fib (suc x) + fib (suc (suc x))
