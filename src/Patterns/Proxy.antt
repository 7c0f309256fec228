-- ===== src/Patterns/Proxy.antt =====
-- structural/proxy/main.go: a terminal that checks its user and passes commands on to another.
pub mod Laws
use awesome_patterns.Base.{String, ◌≡◌, Bool, true, false, Option, none, some, if◌then◌else◌}
use Prim.Native.String.{◌++◌}
use text.Mathlib.Text.{◌==◌ as str_eq}

-- A Go pair of a value and an error, of which one is set.
pub data Result (A : Type 0) : Type 0 where
  ok : A → Result A
  err : String → Result A

-- `GopherTerminal.Execute` for the user.
pub execute_command : String → String → Result String
execute_command user cmd =
    let prefix = user ++ "@go_term$:" in
    if str_eq cmd "say_hi"
    then ok (prefix ++ " Hi " ++ user)
    else (if str_eq cmd "man"
        then ok (prefix ++ " Visit 'https://golang.org/doc/' for Golang documentation")
        else err (prefix ++ " Unknown command"))

-- `Terminal`; `gopher_terminal` is the user of the terminal made by the last `Execute`.
pub record Terminal : Type 0 where
  pub current_user : String
  pub gopher_terminal : Option String

pub authorize_user : String → Option String
authorize_user user =
    if str_eq user "gopher" then none else some ("User " ++ user ++ " in black list")

pub new_terminal : String → Result Terminal
unfolding authorize_user
new_terminal user =
    if str_eq user "" then err "User cant be empty" else (elim (authorize_user user) [
      | some auth_err ↦
          err ("You (" ++ user ++ ") are not allowed to use terminal and execute commands")
      | none ↦ ok (record { current_user = user; gopher_terminal = none })
    ])

-- `Terminal.Execute` with the terminal that it leaves.
unfoldable pub execute : Terminal → String → Terminal × Result String
unfolding execute_command
execute t command =
    let t' : Terminal = record t { gopher_terminal = some t.current_user } in
    (
      t',
      elim (execute_command t.current_user command) [
        | ok resp ↦ ok resp
        | err e ↦ err "I know only how to execute commands: say_hi, man"
      ],
    )
