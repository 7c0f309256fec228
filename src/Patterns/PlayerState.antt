-- ===== src/Patterns/PlayerState.antt =====
-- behavioral/state/problem.go: the health of a player decides which state object acts.
pub mod Laws
use awesome_patterns.Base.{
  String, ◌≡◌, Bool, true, false, ◌&&◌, List, [], ◌∷◌, Option, none, some, if◌then◌else◌,
}
use awesome_patterns.Base.Int.{ℤ, pos, ◌+ℤ◌, ◌-ℤ◌, ltb_ℤ, leb_ℤ, int64}

pub data PlayerState : Type 0 where
  healthy wounded dead : PlayerState

pub record Player : Type 0 where
  pub health : ℤ
  pub max_health : ℤ
  pub state : PlayerState

-- `Heal` of each state, with its error.
pub heal : PlayerState → Player → Player × Option String
unfolding int64 ◌+ℤ◌ ◌-ℤ◌
heal healthy p = (p, none)
heal wounded p =
    if leb_ℤ (int64 (p.max_health -ℤ pos 5)) p.health
    then (record p { state = healthy; health = p.max_health }, none)
    else (record p { health = int64 (p.health +ℤ pos 5) }, none)
heal dead p = (p, some "you are dead")

-- `Hurt` of each state.
pub hurt : PlayerState → Player → ℤ → Player
unfolding int64 ◌-ℤ◌
hurt healthy p dmg =
    if ltb_ℤ (pos 0) dmg && ltb_ℤ dmg p.max_health
    then (record p { health = int64 (p.health -ℤ dmg); state = wounded })
    else (if ltb_ℤ p.max_health dmg then (record p { health = pos 0; state = dead }) else p)
hurt wounded p dmg =
    if ltb_ℤ dmg p.health
    then (record p { health = int64 (p.health -ℤ dmg) })
    else (record p { state = dead; health = pos 0 })
hurt dead p dmg = p

-- `HealPlayer` and `HurtPlayer` call the state of the player.
pub heal_player : Player → Player × Option String
unfolding heal
heal_player p = heal p.state p

pub hurt_player : Player → ℤ → Player
unfolding hurt
hurt_player p damage = hurt p.state p damage
