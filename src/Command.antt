-- ===== src/Command.antt =====
-- behavioral/command/main.go: commands in a channel, and the invoker that executes them.
pub mod Laws
use awesome_patterns.Base.{ℕ, String, Bool, false, List, [], ◌∷◌, ◌++◌, if◌then◌else◌}
use awesome_patterns.Channel.{Chan, Send, queued, full, send_panics, make, try_send}

-- The receiver of the commands.
pub record GunPlayer : Type 0 where
  pub name : String

pub data GameCommand : Type 0 where
  command_attack command_escape : GunPlayer → GameCommand

-- A printed line: the player's name, and what it does.
abbrev pub Line : Type 0
Line = String × String

pub execute : GameCommand → Line
execute (command_attack p) = (p.name, "opened fire")
execute (command_escape p) = (p.name, "escape")

-- The invoker of `main`, with room for ten commands.
abbrev pub invoker : Chan GameCommand
invoker = make 10

-- A push ends, or waits for room with the commands that are left.
pub data Pushed : Type 0 where
  pushed : Chan GameCommand → Pushed
  waits : Chan GameCommand → List GameCommand → Pushed
  push_panics : Pushed

pub push_commands : List GameCommand → Chan GameCommand → Pushed
unfolding try_send
push_commands [] c = pushed c
push_commands (x ∷ xs) c = elim (try_send c x) [
  | queued c' ↦ push_commands xs c'
  | full ↦ waits c (x ∷ xs)
  | send_panics ↦ push_panics
]

-- The receive loop ends with an empty channel; on a closed one it would execute a nil command.
pub data Called : Type 0 where
  returned : Chan GameCommand → List Line → Called
  nil_command : Called

-- The loop, by recursion on the buffered commands; the printed lines are `out`.
pub call_from : List GameCommand → Chan GameCommand → List Line → Called
unfolding execute
call_from [] c out = if c.closed then nil_command else returned c out
call_from (x ∷ xs) c out = call_from xs (record c { buffer = xs }) (out ++ execute x ∷ [])

pub call_commands : Chan GameCommand → Called
unfolding call_from
call_commands c = call_from c.buffer c []
