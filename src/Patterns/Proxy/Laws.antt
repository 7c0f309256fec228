-- ===== src/Patterns/Proxy/Laws.antt =====
-- Who gets a terminal, and what it answers.
use awesome_patterns.Base.{ap, String, ◌≡◌, ◌≢◌, refl, false, none, arith}
use Prim.Native.String.{◌++◌}
use text.Mathlib.Text.{◌==◌ as str_eq}
use text.Mathlib.TextEquality.{eq_iff}
use awesome_patterns.Patterns.Proxy.{ok, err, execute_command, Terminal, new_terminal, execute}

gopher_ne_empty : str_eq "gopher" "" ≡ false
gopher_ne_empty = refl

man_ne_say_hi : str_eq "man" "say_hi" ≡ false
man_ne_say_hi = refl

-- Just the user "gopher" gets a terminal; any other is refused, the empty one with its own message.
pub new_terminal-gopher :
    (user : String)
    → (user ≡ "gopher"
        → new_terminal user ≡ ok (record { current_user = "gopher"; gopher_terminal = none }))
      × (user ≡ "" → new_terminal user ≡ err "User cant be empty")
      × (user ≢ "gopher"
          → user ≢ ""
          → new_terminal user
            ≡ err ("You (" ++ user ++ ") are not allowed to use terminal and execute commands"))
unfolding new_terminal
new_terminal-gopher user = (
  λ e. ap new_terminal e,
  λ e. ap new_terminal e,
  λ h k. ground (arith, eq_iff user "gopher", eq_iff user ""),
)

-- The proxy answers a command as the terminal behind it does, under its own error message, and keeps
-- its user: it knows just "say_hi" and "man".
pub execute_proxies :
    (t : Terminal) (command : String)
    → ((resp : String)
        → execute_command t.current_user command ≡ ok resp
        → (execute t command).1 ≡ ok resp)
      × (command ≢ "say_hi"
          → command ≢ "man"
          → (execute t command).1 ≡ err "I know only how to execute commands: say_hi, man")
      × ((execute t command).0.current_user ≡ t.current_user)
unfolding execute execute_command
execute_proxies t command = (
  λ resp h. ground arith,
  λ h k. ground (arith, eq_iff command "say_hi", eq_iff command "man"),
  refl,
)
