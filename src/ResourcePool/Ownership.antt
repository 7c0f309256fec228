-- ===== src/ResourcePool/Ownership.antt =====
-- Where the resources of the pool are, and what holds of them after `Close`.
use awesome_patterns.Base.{
  ℕ, zero, suc, ◌+◌, ◌≡◌, refl, ap, ◌∙◌, true, false, List, [], ◌∷◌, Option, none, some, arith,
  length, if◌then◌else◌,
}
use awesome_patterns.Channel.{try_send, try_receive}
use awesome_patterns.ResourcePool.{
  Pool, Event, moves, Made, new, Action, call_acquire, call_release, call_close, flush_one, step,
  Ledger, enter, given, Allowed, Reach, start, later, pool_closed, discarded, flushed, nothing,
}
use awesome_patterns.ResourcePool.Invariant.{count, count-snoc, Reach-Inv}

-- Every resource made is in the channel, held by a client or closed.
abbrev Balanced : ℕ → Pool → Ledger → Type 0
Balanced x p b = b.made x ≡ count x p.resources.buffer + b.held x + b.shut x

module _ (x : ℕ) (p : Pool) (b : Ledger) (v : Balanced x p b) where
  step-Balanced :
      (a : Action) {p' : Pool} {e : Event}
      → Allowed a b
      → step p a ≡ moves p' e
      → Balanced x p' (enter e (given a b))
  unfolding step try_receive try_send
  step-Balanced (call_acquire m) ok h = ground arith
  step-Balanced (call_release r) ok h = ground (arith, count-snoc x r p.resources.buffer, ap b.held)
  step-Balanced call_close ok h = ground arith
  step-Balanced flush_one ok h = ground arith

-- Every resource that the factory made is, just as often as it was made, in the channel, held by a
-- client or closed; so none is lost and none is closed twice or closed while it is shared.
pub resources_balanced :
    {size : ℕ} {p : Pool} {b : Ledger}
    → Reach size p b
    → (x : ℕ) → b.made x ≡ count x p.resources.buffer + b.held x + b.shut x
unfolding new
resources_balanced (start e f) x = ground (arith, e, ap (λ (b : Ledger). b.made x) f)
resources_balanced (later {p = p} {b = b} r a ok h) x =
    step-Balanced x p b (resources_balanced r x) a ok h

-- After `Close` has returned the pool has no resource: what the clients do not hold is closed, every
-- `Acquire` returns `ErrPoolClosed` without a call of the factory, every `Release` closes its
-- resource, and `Close` does nothing.
after_close :
    {size : ℕ} {p : Pool} {b : Ledger}
    → Reach size p b
    → p.closed ≡ true
    → p.locked ≡ false
    → ((x : ℕ) → b.made x ≡ b.held x + b.shut x)
      × ((m : Made) → step p (call_acquire m) ≡ moves p pool_closed)
      × ((r : ℕ) → step p (call_release r) ≡ moves p (discarded r))
      × (step p call_close ≡ moves p nothing)
unfolding step try_receive
after_close {p = p} r c l =
    let v = Reach-Inv r in
    let e = v.flushed_out c l in
    (
      λ x. ground (arith, resources_balanced r x, e),
      λ m. ground (arith, v.flag, e),
      λ x. ground arith,
      ground arith,
    )

-- The loop of `Close`, run to its end with the given number of passes at most.
abbrev pub flush_all : ℕ → Pool → Ledger → Option (Pool × Ledger)
flush_all zero p b = none
flush_all (suc n) p b = elim (step p flush_one) [
  | moves p' e ↦ if p'.locked then flush_all n p' (enter e b) else some (p', enter e b)
  | _ ↦ none
]

-- What is left when the loop of `Close` has ended, having closed the resources of the list.
record Flushed (xs : List ℕ) (p : Pool) (b : Ledger) : Type 0 where
  last : Pool
  ledger : Ledger
  ended : flush_all (suc (length xs)) p b ≡ some (last, ledger)
  unlocked : last.locked ≡ false
  emptied : last.resources.buffer ≡ []
  added : (x : ℕ) → ledger.shut x ≡ b.shut x + count x xs

one_more-Flushed :
    (r : ℕ) (rs : List ℕ) (p : Pool) (b : Ledger)
    → p.resources.buffer ≡ r ∷ rs
    → p.locked ≡ true
    → Flushed rs
        (record p { resources = record (p.resources) { buffer = rs } })
        (enter (flushed r) b)
    → Flushed (r ∷ rs) p b
unfolding step try_receive
one_more-Flushed r rs p b e l rest = record {
  last = rest.last;
  ledger = rest.ledger;
  ended = ground (arith, rest.ended);
  unlocked = rest.unlocked;
  emptied = rest.emptied;
  added = λ x. ground (arith, rest.added x);
}

flush_all-Flushed :
    (xs : List ℕ) (p : Pool) (b : Ledger)
    → p.resources.buffer ≡ xs
    → p.resources.closed ≡ true
    → p.locked ≡ true
    → Flushed xs p b
unfolding step try_receive
flush_all-Flushed [] p b e c l = record {
  last = record p { locked = false };
  ledger = b;
  ended = ground arith;
  unlocked = refl;
  emptied = e;
  added = λ x. omega arith;
}
flush_all-Flushed (r ∷ rs) p b e c l = one_more-Flushed r rs p b e l (
    flush_all-Flushed rs (record p { resources = record (p.resources) { buffer = rs } })
      (enter (flushed r) b) refl c l)

-- `Close` comes to its end: once it has closed the channel, one pass for each resource in the channel
-- and one more end its loop, if no goroutine acquires meanwhile. Then the mutex is free, the channel
-- is empty, and just the resources that were in it were closed.
close_ends :
    {size : ℕ} {p : Pool} {b : Ledger}
    → Reach size p b
    → p.locked ≡ true
    → (p' : Pool) × (b' : Ledger) × (flush_all (suc (length p.resources.buffer)) p b
        ≡ some (p', b'))
      × (p'.locked ≡ false)
      × (p'.resources.buffer ≡ [])
      × ((x : ℕ) → b'.shut x ≡ b.shut x + count x p.resources.buffer)
close_ends {p = p} {b = b} r l =
    let v = Reach-Inv r in
    let f = flush_all-Flushed p.resources.buffer p b refl (v.flag ∙ v.lock l) l in
    (f.last, f.ledger, f.ended, f.unlocked, f.emptied, f.added)
