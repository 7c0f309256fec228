-- ===== src/Patterns/GameSelector.antt =====
-- behavioral/chain_of_responsibility/main.go: a chain of games, of which the first that fits starts.
pub mod Laws
use awesome_patterns.Base.{ℕ, String, List, [], ◌∷◌, ◌++◌, Option, none, some, if◌then◌else◌, ◌==◌}

abbrev pub type_fps : ℕ
type_fps = 1

abbrev pub type_rpg : ℕ
type_rpg = 2

-- A game: its type, and what it prints of the player who joins.
pub data Game : Type 0 where
  fps_game : (t : ℕ) → Game
  rpg_game : (t : ℕ) → Game

pub game_type : Game → ℕ
game_type (fps_game t) = t
game_type (rpg_game t) = t

pub start_game : Game → String → String × String
start_game (fps_game t) player = (player, "join in fps game")
start_game (rpg_game t) player = (player, "join in rpg game")

pub add_game : List Game → List Game → List Game
add_game game_list games = game_list ++ games

-- The printed line, if a game starts.
pub start : List Game → ℕ → String → Option (String × String)
unfolding game_type start_game
start [] t player = none
start (v ∷ vs) t player = if game_type v == t then some (start_game v player) else start vs t player
