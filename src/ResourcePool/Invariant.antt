-- ===== src/ResourcePool/Invariant.antt =====
-- What holds in every state of the resource pool.
use awesome_patterns.Base.{
  ℕ, ◌+◌, ◌≤◌, ◌≡◌, refl, true, false, List, [], ◌∷◌, ◌++◌, some, arith, ite, ℕ_discrete, length,
  length-append, ◌≢◌,
}
use awesome_patterns.Channel.{try_send, try_receive}
use awesome_patterns.ResourcePool.{
  Pool, Event, panics, moves, new, Action, call_acquire, call_release, call_close, flush_one, step,
  Ledger, Reach, start, later,
}

abbrev pub count : ℕ → List ℕ → ℕ
count x [] = 0
count x (r ∷ rs) = let rest = count x rs in ite (ℕ_discrete r x) (rest + 1) rest

pub count-snoc : (x r : ℕ) (rs : List ℕ) → count x (rs ++ r ∷ []) ≡ count x (r ∷ rs)
count-snoc x r [] = refl
count-snoc x r (y ∷ ys) = ground (arith, count-snoc x r ys)

pub record Inv (size : ℕ) (p : Pool) : Type 0 where
  pub capacity : p.resources.capacity ≡ size
  pub within : length p.resources.buffer ≤ size
  pub flag : p.resources.closed ≡ p.closed
  pub lock : p.locked ≡ true → p.closed ≡ true
  pub flushed_out : p.closed ≡ true → p.locked ≡ false → p.resources.buffer ≡ []

new-Inv : (size : ℕ) {p : Pool} → new size ≡ some p → Inv size p
unfolding new
new-Inv size h = ground arith

module _ {size : ℕ} (p : Pool) (v : Inv size p) where
  step-Inv : (a : Action) {p' : Pool} {e : Event} → step p a ≡ moves p' e → Inv size p'
  unfolding step try_receive try_send
  step-Inv (call_acquire m) h = ground arith
  step-Inv (call_release r) h = ground (arith, length-append p.resources.buffer (r ∷ []))
  step-Inv call_close h = ground arith
  step-Inv flush_one h = ground arith

pub Reach-Inv : {size : ℕ} {p : Pool} {b : Ledger} → Reach size p b → Inv size p
Reach-Inv {size} (start e _) = new-Inv size e
Reach-Inv (later {p = p} r a ok h) = step-Inv p (Reach-Inv r) a h

-- No run of the pool panics: `Release` does not send on the channel that `Close` has closed.
pub pool_never_panics :
    {size : ℕ} {p : Pool} {b : Ledger} → Reach size p b → (a : Action) → step p a ≢ panics
unfolding step try_receive try_send
pool_never_panics r (call_acquire m) h = ground (arith, (Reach-Inv r).flag)
pool_never_panics r (call_release x) h = ground (arith, (Reach-Inv r).flag)
pool_never_panics r call_close h = ground (arith, (Reach-Inv r).flag)
pool_never_panics r flush_one h = ground (arith, (Reach-Inv r).flag)

-- The pool keeps at most `size` resources.
pub buffer-le-size :
    {size : ℕ} {p : Pool} {b : Ledger} → Reach size p b → length p.resources.buffer ≤ size
buffer-le-size r = (Reach-Inv r).within
