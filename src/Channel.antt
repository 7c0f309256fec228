-- ===== src/Channel.antt =====
-- Go's channels with a buffer, as the components use them: the operations of a `select` that has a
-- default, on a channel that may be closed.
use awesome_patterns.Base.{ℕ, Bool, false, List, [], ◌∷◌, ◌++◌, if◌then◌else◌, ltb, length}

-- The values in the buffer, the oldest first.
pub record Chan (A : Type 0) : Type 0 where
  pub buffer : List A
  pub capacity : ℕ
  pub closed : Bool

-- A send goes into the buffer, finds it full, or panics on a closed channel.
pub data Send (A : Type 0) : Type 0 where
  queued : Chan A → Send A
  full : Send A
  send_panics : Send A

-- A receive takes the oldest value, finds a closed channel drained, or finds nothing.
pub data Receive (A : Type 0) : Type 0 where
  value : A → Chan A → Receive A
  drained : Receive A
  empty : Receive A

module _ {A : Type 0} where
  -- `make(chan A, capacity)`
  abbrev pub make : ℕ → Chan A
  make n = record { buffer = []; capacity = n; closed = false }

  unfoldable pub try_send : Chan A → A → Send A
  try_send c a =
      if c.closed
      then send_panics
      else (if ltb (length c.buffer) c.capacity
          then queued (record c { buffer = c.buffer ++ a ∷ [] })
          else full)

  pub receive_from : Chan A → List A → Receive A
  receive_from c [] = if c.closed then drained else empty
  receive_from c (a ∷ rest) = value a (record c { buffer = rest })

  unfoldable pub try_receive : Chan A → Receive A
  unfolding receive_from
  try_receive c = receive_from c c.buffer
