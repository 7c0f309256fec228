-- ===== src/Patterns/GameSelector/Laws.antt =====
-- Games that are added later come into play only for a type that no earlier game has.
use awesome_patterns.Base.{ℕ, ◌≡◌, refl, String, List, [], ◌∷◌, none, some, arith}
use awesome_patterns.Patterns.GameSelector.{Game, add_game, start}

-- After games are added, the one that starts is that of the old chain, if it has one for the type,
-- and else that of the added games.
pub start-add_game :
    (vs games : List Game) (t : ℕ) (player : String)
    → start (add_game vs games) t player
      ≡ (elim (start vs t player) [ some l ↦ some l | none ↦ start games t player ])
unfolding start add_game
start-add_game [] games t player = refl
start-add_game (v ∷ vs) games t player = ground (arith, start-add_game vs games t player)
