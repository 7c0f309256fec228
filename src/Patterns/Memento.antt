-- ===== src/Patterns/Memento.antt =====
-- behavioral/memento/main.go: saved positions of a player, kept in a `container/list`, newest first.
pub mod Laws
mod Examples
use awesome_patterns.Base.{String, List, [], ◌∷◌, Option, none, some, Option}
use awesome_patterns.Base.Int.{ℤ}

pub record Player : Type 0 where
  pub x : ℤ
  pub y : ℤ
  pub name : String

pub record PlayerMemento : Type 0 where
  pub x : ℤ
  pub y : ℤ

pub move_to : Player → ℤ → ℤ → Player
move_to p x y = record p { x = x; y = y }

pub save : Player → PlayerMemento
save p = record { x = p.x; y = p.y }

pub restore : Player → PlayerMemento → Player
restore p m = record p { x = m.x; y = m.y }

-- `MementoList`
abbrev pub CareTaker : Type 0
CareTaker = List PlayerMemento

pub add_memento : CareTaker → PlayerMemento → CareTaker
add_memento ct m = m ∷ ct

-- `none`: `Front` of an empty list is nil, and `Remove` of nil panics.
pub remove_last : CareTaker → Option (PlayerMemento × CareTaker)
remove_last [] = none
remove_last (m ∷ ct) = some (m, ct)
