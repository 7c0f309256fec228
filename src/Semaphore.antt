-- ===== src/Semaphore.antt =====
-- concurrency/semaphore/main.go: a semaphore of tickets in the buffer of a channel.
pub mod Laws
mod Examples
use awesome_patterns.Base.{
  ℕ, suc, ◌+◌, ◌≡◌, ◌⊎◌, Bool, true, false, List, [], ◌∷◌, Option, none, some,
}
use awesome_patterns.Channel.{
  Chan, Send, Receive, queued, full, send_panics, value, drained, empty, make, try_send,
  try_receive,
}

pub data Error : Type 0 where
  no_tickets illegal_release : Error

-- `New`
pub new : ℕ → Chan (Unit {0})
new tickets = make tickets

-- The channel afterwards, with the error; `none` where the `select` waits. The environment says
-- whether the timeout is the case taken.
unfoldable pub acquire : Chan (Unit {0}) → Bool → Option (Chan (Unit {0}) × Option Error)
acquire sem true = some (sem, some no_tickets)
acquire sem false = elim (try_send sem tt) [ queued c ↦ some (c, none) | _ ↦ none ]

unfoldable pub release : Chan (Unit {0}) → Bool → Option (Chan (Unit {0}) × Option Error)
release sem true = some (sem, some illegal_release)
release sem false = elim (try_receive sem) [ value _ c ↦ some (c, none) | _ ↦ none ]

-- The channel after some calls, with how many of each kind succeeded.
pub data Reach (tickets : ℕ) : Chan (Unit {0}) → ℕ → ℕ → Type 0 where
  start : {c : Chan (Unit {0})} → c ≡ new tickets → Reach tickets c 0 0
  acquired :
      {c c' : Chan (Unit {0})} {a r : ℕ}
      → Reach tickets c a r
      → (timeout : Bool) → acquire c timeout ≡ some (c', none)
      → Reach tickets c' (suc a) r
  released :
      {c c' : Chan (Unit {0})} {a r : ℕ}
      → Reach tickets c a r
      → (timeout : Bool) → release c timeout ≡ some (c', none)
      → Reach tickets c' a (suc r)
  not_acquired :
      {c c' : Chan (Unit {0})} {a r : ℕ} {e : Error}
      → Reach tickets c a r
      → (timeout : Bool) → acquire c timeout ≡ some (c', some e)
      → Reach tickets c' a r
  not_released :
      {c c' : Chan (Unit {0})} {a r : ℕ} {e : Error}
      → Reach tickets c a r
      → (timeout : Bool) → release c timeout ≡ some (c', some e)
      → Reach tickets c' a r
