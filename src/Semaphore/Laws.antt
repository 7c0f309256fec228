-- ===== src/Semaphore/Laws.antt =====
-- The tickets of the semaphore.
use awesome_patterns.Base.{
  ℕ, ◌+◌, ◌≤◌, ◌<◌, ◌≡◌, refl, true, false, [], ◌∷◌, ◌++◌, none, some, arith, length, length-append,
}
use mathlib.Core.List.{tail}
use awesome_patterns.Channel.{Chan, try_send, try_receive}
use awesome_patterns.Semaphore.{
  no_tickets, illegal_release, new, acquire, release, Reach, start, acquired, released,
  not_acquired, not_released,
}

record Inv (tickets : ℕ) (c : Chan (Unit {0})) (a r : ℕ) : Type 0 where
  capacity : c.capacity ≡ tickets
  open_ : c.closed ≡ false
  held : a ≡ r + length c.buffer
  within : length c.buffer ≤ tickets

Reach-Inv : {tickets : ℕ} {c : Chan (Unit {0})} {a r : ℕ} → Reach tickets c a r → Inv tickets c a r
unfolding new acquire release try_send try_receive
Reach-Inv (start e) = ground arith
Reach-Inv (acquired {c = c} q t h) =
    let v = Reach-Inv q in ground (arith, v, length-append c.buffer (tt ∷ []))
Reach-Inv (released q t h) = let v = Reach-Inv q in ground (arith, v)
Reach-Inv (not_acquired q t h) = let v = Reach-Inv q in ground (arith, v)
Reach-Inv (not_released q t h) = let v = Reach-Inv q in ground (arith, v)

-- The tickets held, those acquired less those released, are never fewer than 0 nor more than there
-- are. Before its timeout `Aquire` succeeds if fewer are held and waits if all are, and `Release`
-- succeeds if one is held and waits if none is; a call that times out changes nothing.
tickets_held :
    {tickets : ℕ} {c : Chan (Unit {0})} {a r : ℕ}
    → Reach tickets c a r
    → (r ≤ a)
      × (a ≤ r + tickets)
      × (a < r + tickets → (c' : Chan (Unit {0})) × (acquire c false ≡ some (c', none)))
      × (a ≡ r + tickets → acquire c false ≡ none)
      × (r < a → (c' : Chan (Unit {0})) × (release c false ≡ some (c', none)))
      × (r ≡ a → release c false ≡ none)
      × (acquire c true ≡ some (c, some no_tickets))
      × (release c true ≡ some (c, some illegal_release))
unfolding acquire release try_send try_receive
tickets_held {c = c} q =
    let v = Reach-Inv q in
    (
      omega (arith, v.held),
      omega (arith, v.held, v.within),
      λ h. (record c { buffer = c.buffer ++ tt ∷ [] }, ground (arith, v)),
      λ h. ground (arith, v),
      λ h. (record c { buffer = tail c.buffer }, ground (arith, v)),
      λ h. ground (arith, v),
      refl,
      refl,
    )
