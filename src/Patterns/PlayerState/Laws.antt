-- ===== src/Patterns/PlayerState/Laws.antt =====
-- The state object agrees with the health.
use awesome_patterns.Base.{◌≡◌, ◌≢◌, none, arith}
use awesome_patterns.Base.Int.{ℤ, pos, ◌≤ℤ◌, ◌<ℤ◌, IsInt}
use awesome_patterns.Patterns.PlayerState.{
  PlayerState, healthy, wounded, dead, Player, heal_player, hurt_player,
}

-- A healthy player has full health, a wounded one some and not all of it, a dead one none.
abbrev pub Agrees : PlayerState → ℤ → ℤ → Type 0
Agrees healthy h m = h ≡ m
Agrees wounded h m = (pos 0 <ℤ h) × (h <ℤ m)
Agrees dead h m = h ≡ pos 0

pub record IsSound (p : Player) : Type 0 where
  pub in_range : IsInt p.max_health
  pub alive : pos 0 <ℤ p.max_health
  pub agrees : Agrees p.state p.health p.max_health

-- Healing and damage that is not negative keep the state object in agreement with the health, which
-- stays between 0 and `MaxHealth`; `MaxHealth` never changes.
turn-IsSound :
    (p : Player) (dmg : ℤ)
    → IsSound p
    → IsInt dmg
    → pos 0 ≤ℤ dmg
    → IsSound (heal_player p).0
      × IsSound (hurt_player p dmg)
      × ((heal_player p).0.max_health ≡ p.max_health)
      × ((hurt_player p dmg).max_health ≡ p.max_health)
unfolding heal_player hurt_player
turn-IsSound p dmg v i h = (ground arith, ground arith, ground arith, ground arith)

-- Healing fails just for the dead, who stay dead whatever is done to them.
pub dead_is_final :
    (p : Player) (dmg : ℤ)
    → ((heal_player p).1 ≡ none → p.state ≢ dead)
      × (p.state ≢ dead → (heal_player p).1 ≡ none)
      × (p.state ≡ dead → ((heal_player p).0 ≡ p) × (hurt_player p dmg ≡ p))
unfolding heal_player hurt_player
dead_is_final p dmg = (ground arith, ground arith, λ e. (ground arith, ground arith))

-- Damage of just `MaxHealth` does a healthy player no harm, while any smaller positive damage wounds
-- and any greater damage kills.
exact_damage_ignored :
    (p : Player) (dmg : ℤ)
    → p.state ≡ healthy
    → pos 0 <ℤ dmg
    → (dmg ≡ p.max_health → hurt_player p dmg ≡ p)
      × (dmg <ℤ p.max_health → (hurt_player p dmg).state ≡ wounded)
      × (p.max_health <ℤ dmg → (hurt_player p dmg).state ≡ dead)
unfolding hurt_player
exact_damage_ignored p dmg e h = (λ f. ground arith, λ f. ground arith, λ f. ground arith)
