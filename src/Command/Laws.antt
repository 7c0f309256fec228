-- ===== src/Command/Laws.antt =====
-- Commands are executed in the order of the pushes.
use awesome_patterns.Base.{
  ◌+◌, ◌≤◌, ◌≡◌, refl, sym, ap, ◌∙◌, false, List, [], ◌∷◌, ◌++◌, map, append-nil, append_assoc,
  length, length-append, arith,
}
use awesome_patterns.Channel.{Chan, try_send}
use awesome_patterns.Command.{
  GameCommand, Line, execute, pushed, push_commands, returned, call_from, call_commands,
}

push_commands-fits :
    (xs : List GameCommand) (c : Chan GameCommand)
    → c.closed ≡ false
    → length c.buffer + length xs ≤ c.capacity
    → push_commands xs c ≡ pushed (record c { buffer = c.buffer ++ xs })
unfolding push_commands try_send
push_commands-fits [] c p q = ap (λ b. pushed (record c { buffer = b })) (sym (append-nil c.buffer))
push_commands-fits (x ∷ xs) c p q = ground (
  arith,
  push_commands-fits xs (record c { buffer = c.buffer ++ x ∷ [] }),
  length-append c.buffer (x ∷ []),
  append_assoc c.buffer (x ∷ []) xs,
)

call_from-lem :
    (xs : List GameCommand) (c : Chan GameCommand) (out : List Line)
    → c.closed ≡ false
    → c.buffer ≡ xs
    → call_from xs c out ≡ returned (record c { buffer = [] }) (out ++ map execute xs)
unfolding call_from
call_from-lem [] c out p q = ground (arith, append-nil out)
call_from-lem (x ∷ xs) c out p q =
    call_from-lem xs (record c { buffer = xs }) (out ++ execute x ∷ []) p refl
    ∙ ap (returned (record c { buffer = [] })) (append_assoc out (execute x ∷ []) (map execute xs))

-- Commands that fit into an open channel are pushed without waiting, and the next call returns,
-- leaves the channel empty, and prints the lines of the commands that waited in it and of the
-- pushed ones, in the order of the pushes.
call_commands-push :
    (xs : List GameCommand) (c : Chan GameCommand)
    → c.closed ≡ false
    → length c.buffer + length xs ≤ c.capacity
    → (push_commands xs c ≡ pushed (record c { buffer = c.buffer ++ xs }))
      × (call_commands (record c { buffer = c.buffer ++ xs })
          ≡ returned (record c { buffer = [] }) (map execute (c.buffer ++ xs)))
unfolding call_commands
call_commands-push xs c p q = (
  push_commands-fits xs c p q,
  call_from-lem (c.buffer ++ xs) (record c { buffer = c.buffer ++ xs }) [] p refl,
)
