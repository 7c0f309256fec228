-- ===== src/Fanout/Worker/Sends.antt =====
-- The messages that the goroutines of a worker are given, and those they have sent.
use awesome_patterns.Base.{
  ℕ, ◌+◌, ◌≡◌, refl, ◌%◌, ◌^◌, List, [], ◌∷◌, Option, none, some, arith, get_elem?, total,
  total-set, total-snoc,
}
use awesome_patterns.Channel.{try_send, try_receive}
use awesome_patterns.Fanout.Worker.{
  Message, StreamPc, sending, checking, locking, marking, starting, looping, processing, leaving,
  unlocking, clearing, ended, Worker, Event, moves, on_send, on_message, on_default, on_select,
  on_stream, Action, start_stream, continue_stream, step,
}
use awesome_patterns.Fanout.Worker.Order.{sent_messages}

-- The message of a goroutine that has not sent it yet.
abbrev pub at_send : (Message → ℕ) → StreamPc → ℕ
at_send wt (sending msg) = wt msg
at_send wt _ = 0

-- The message with which a step starts a goroutine.
abbrev pub given : (Message → ℕ) → Action → ℕ
given wt (start_stream msg) = wt msg
given wt _ = 0

module _ (wt : Message → ℕ) (w : Worker) (es : List Event) where
  -- What the goroutines have sent, and what they have yet to send.
  abbrev Kept : Worker → Event → Type 0
  Kept w' e =
      total wt (sent_messages (e ∷ es)) + total (at_send wt) w'.streams
      ≡ total wt (sent_messages es) + total (at_send wt) w.streams

  module _ (i : ℕ) where
    on_send-Kept :
        (msg : Message) {w' : Worker} {e : Event}
        → get_elem? w.streams i ≡ some (sending msg)
        → on_send w i msg ≡ moves w' e
        → Kept w' e
    unfolding on_send try_send
    on_send-Kept msg f h =
        ground (
          arith,
          total-set (at_send wt) w.streams i checking f,
          total-snoc wt (sent_messages es) msg,
        )

    on_select-Kept :
        (idle : ℕ) (q : List Message) {w' : Worker} {e : Event}
        → get_elem? w.streams i ≡ some (looping idle)
        → w.chain.buffer ≡ q
        → on_select w i idle ≡ moves w' e
        → Kept w' e
    unfolding on_select on_message on_default try_receive
    on_select-Kept idle [] f g h = ground (
      arith,
      g,
      total-set (at_send wt) w.streams i leaving f,
      total-set (at_send wt) w.streams i (looping 0) f,
      total-set (at_send wt) w.streams i (looping ((idle + 1) % 2 ^ 32)) f,
    )
    on_select-Kept idle (none ∷ rest) f g h =
        ground (arith, g, total-set (at_send wt) w.streams i (looping 0) f)
    on_select-Kept idle (some n ∷ rest) f g h =
        ground (arith, g, total-set (at_send wt) w.streams i (processing n) f)

    on_stream-Kept :
        (o : Option StreamPc) {w' : Worker} {e : Event}
        → get_elem? w.streams i ≡ o
        → on_stream w i o ≡ moves w' e
        → Kept w' e
    unfolding on_stream
    on_stream-Kept (some (sending msg)) f h = on_send-Kept msg f h
    on_stream-Kept (some checking) f h = ground (
      arith,
      total-set (at_send wt) w.streams i ended f,
      total-set (at_send wt) w.streams i locking f,
    )
    on_stream-Kept (some locking) f h = ground (arith, total-set (at_send wt) w.streams i marking f)
    on_stream-Kept (some marking) f h =
        ground (arith, total-set (at_send wt) w.streams i starting f)
    on_stream-Kept (some starting) f h =
        ground (arith, total-set (at_send wt) w.streams i (looping 0) f)
    on_stream-Kept (some (looping idle)) f h = on_select-Kept idle w.chain.buffer f refl h
    on_stream-Kept (some (processing n)) f h =
        ground (arith, total-set (at_send wt) w.streams i (looping 0) f)
    on_stream-Kept (some leaving) f h =
        ground (arith, total-set (at_send wt) w.streams i unlocking f)
    on_stream-Kept (some unlocking) f h =
        ground (arith, total-set (at_send wt) w.streams i clearing f)
    on_stream-Kept (some clearing) f h = ground (arith, total-set (at_send wt) w.streams i ended f)
    on_stream-Kept (some ended) f h = cc
    on_stream-Kept none f h = cc

-- A step sends what a goroutine was given, or gives a goroutine what the step says.
pub step-sends :
    (wt : Message → ℕ) (w : Worker) (es : List Event) (a : Action) {w' : Worker} {e : Event}
    → step w a ≡ moves w' e
    → total wt (sent_messages (e ∷ es)) + total (at_send wt) w'.streams
      ≡ (total wt (sent_messages es) + total (at_send wt) w.streams) + given wt a
unfolding step
step-sends wt w es (start_stream msg) h =
    ground (arith, total-snoc (at_send wt) w.streams (sending msg))
step-sends wt w es (continue_stream i) {w'} {e} h =
    omega (arith, on_stream-Kept wt w es i (get_elem? w.streams i) {w' = w'} {e = e} refl h)
