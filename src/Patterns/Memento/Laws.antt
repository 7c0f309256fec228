-- ===== src/Patterns/Memento/Laws.antt =====
-- Saving and loading.
use awesome_patterns.Base.{
  ℕ, zero, suc, ◌≡◌, refl, sym, ap, ◌∙◌, List, [], ◌∷◌, ◌++◌, Option, none, some, arith, length,
  Option-cases, inl, inr, append_assoc,
}
use awesome_patterns.Base.Int.{ℤ}
use awesome_patterns.Patterns.Memento.{
  Player, PlayerMemento, CareTaker, move_to, save, restore, add_memento, remove_last,
}

-- The game of `main`: each place is saved before the player moves on to the next.
unfoldable pub visit : List (ℤ × ℤ) → Player → CareTaker → Player × CareTaker
visit [] p ct = (p, ct)
visit ((x, y) ∷ places) p ct = visit places (move_to p x y) (add_memento ct (save p))

-- Loading so many times, with the positions in the order in which they come back.
unfoldable pub load : ℕ → Player → CareTaker → Option (List PlayerMemento × Player × CareTaker)
load zero p ct = some ([], p, ct)
load (suc n) p ct = elim (remove_last ct) [
  | none ↦ none
  | some (m, rest) ↦ (elim (load n (restore p m) rest) [
    | none ↦ none
    | some (ms, q, ct') ↦ some (m ∷ ms, q, ct')
  ])
]

-- The positions that a game leaves behind, the latest first.
abbrev pub left_behind : List (ℤ × ℤ) → Player → List PlayerMemento → List PlayerMemento
left_behind [] p ms = ms
left_behind ((x, y) ∷ places) p ms =
    left_behind places (record p { x = x; y = y }) (record { x = p.x; y = p.y } ∷ ms)

load-snoc :
    (n : ℕ) (q : Player) (ct : CareTaker) {ms : List PlayerMemento} {p : Player} (m : PlayerMemento)
    (rest : CareTaker)
    → load n q ct ≡ some (ms, p, m ∷ rest)
    → load (suc n) q ct ≡ some (ms ++ m ∷ [], restore p m, rest)
unfolding load remove_last
load-snoc zero q ct m rest h = ground arith
load-snoc (suc n) q [] m rest h = cc
load-snoc (suc n) q (x ∷ ct) {ms = ms} {p = p} m rest h =
    elim (Option-cases (load n (restore q x) ct)) [
      | inl e ↦ ground arith
      | inr ((ys, p', ct'), e) ↦
          ground (arith, load-snoc n (restore q x) ct {ms = ys} {p = p'} m rest)
    ]

left_behind-append :
    (places : List (ℤ × ℤ)) (p : Player) (ms : List PlayerMemento)
    → left_behind places p ms ≡ left_behind places p [] ++ ms
left_behind-append [] p ms = refl
left_behind-append ((x, y) ∷ places) p ms =
    left_behind-append places q (m ∷ ms)
    ∙ sym (append_assoc (left_behind places q []) (m ∷ []) ms)
    ∙ ap (λ xs. xs ++ ms) (sym (left_behind-append places q (m ∷ [])))
  where
    q : Player
    q = record p { x = x; y = y }

    m : PlayerMemento
    m = record { x = p.x; y = p.y }

-- Loading as often as the game was saved gives the positions back in reverse order, and leaves the
-- player where the game began and the list of saved positions as it was.
pub load-visit :
    (places : List (ℤ × ℤ)) (p : Player) (ct : CareTaker)
    → load (length places) (visit places p ct).0 (visit places p ct).1
      ≡ some (left_behind places p [], p, ct)
unfolding load visit add_memento save move_to restore
load-visit [] p ct = refl
load-visit ((x, y) ∷ places) p ct =
    load-snoc (length places) _ _ m ct (load-visit places (record p { x = x; y = y }) (m ∷ ct))
    ∙ ap (λ xs. some (xs, p, ct))
        (sym (left_behind-append places (record p { x = x; y = y }) (m ∷ [])))
  where
    m : PlayerMemento
    m = record { x = p.x; y = p.y }
