-- ===== src/Fanout/Pipeline/Order.antt =====
-- The order in which the pipeline hands out its messages, and what becomes of them.
use awesome_patterns.Base.{
  ℕ, ◌+◌, ap, total, total-append, ◌≡◌, refl, List, [], ◌∷◌, ◌++◌, Option, none, some, arith,
  append_assoc, get_elem?,
}
use awesome_patterns.Channel.{try_send, try_receive}
use awesome_patterns.Fanout.Worker.{Message, Worker, start_stream, continue_stream}
use awesome_patterns.Fanout.Worker
use awesome_patterns.Fanout.Pipeline.{
  StartPc, choosing, waiting, stopped, Pipeline, new_pipeline, Event, dispatched, handed, moves,
  dispatch, choose, hand_over, take, cancel, worked, work, Action, call_dispatch, choose_worker,
  take_message, cancel_context, continue_worker, step, Reach, start, later,
}
use awesome_patterns.Fanout.Worker.Order.{
  not_nil, in_hand, sent_messages, processed_messages, processed_in_order,
}
use awesome_patterns.Fanout.Worker.Sends.{at_send}
use awesome_patterns.Fanout.Pipeline.Workers.{IsWorker, handed_to, Reach-Inv}

-- The messages dispatched, and those handed to workers.
abbrev pub dispatched_messages : List Event → List Message
dispatched_messages [] = []
dispatched_messages (dispatched m ∷ es) = dispatched_messages es ++ m ∷ []
dispatched_messages (_ ∷ es) = dispatched_messages es

abbrev pub handed_messages : List Event → List Message
handed_messages [] = []
handed_messages (handed k m ∷ es) = handed_messages es ++ m ∷ []
handed_messages (_ ∷ es) = handed_messages es

abbrev Ordered : Pipeline → List Event → Type 0
Ordered p es = dispatched_messages es ≡ handed_messages es ++ p.chain.buffer

module _ (p : Pipeline) (es : List Event) (v : Ordered p es) where
  dispatch-Ordered :
      (msg : Message) {p' : Pipeline} {e : Event}
      → dispatch p msg ≡ moves p' e
      → Ordered p' (e ∷ es)
  unfolding dispatch try_send
  dispatch-Ordered msg h =
      ground (arith, v, append_assoc (handed_messages es) p.chain.buffer (msg ∷ []))

  take-Ordered :
      (c : StartPc) (q : List Message) {p' : Pipeline} {e : Event}
      → p.chain.buffer ≡ q
      → take p c ≡ moves p' e
      → Ordered p' (e ∷ es)
  unfolding take hand_over try_receive Worker.step
  take-Ordered (waiting k) [] f h = ground (arith, v, f)
  take-Ordered (waiting k) (msg ∷ rest) f h =
      ground (arith, v, f, append_assoc (handed_messages es) (msg ∷ []) rest)
  take-Ordered choosing q f h = cc
  take-Ordered stopped q f h = cc

  worked-Ordered :
      (k : ℕ) (o : Worker.Outcome) {p' : Pipeline} {e : Event}
      → worked p k o ≡ moves p' e
      → Ordered p' (e ∷ es)
  unfolding worked
  worked-Ordered k (Worker.moves w e) h = ground (arith, v)
  worked-Ordered k Worker.blocked h = cc
  worked-Ordered k Worker.panics h = cc

  work-Ordered :
      (k i : ℕ) (o : Option Worker) {p' : Pipeline} {e : Event}
      → work p k i o ≡ moves p' e
      → Ordered p' (e ∷ es)
  unfolding work
  work-Ordered k i none h = cc
  work-Ordered k i (some w) h = worked-Ordered k (Worker.step w (continue_stream i)) h

  step-Ordered :
      (a : Action) {p' : Pipeline} {e : Event} → step p a ≡ moves p' e → Ordered p' (e ∷ es)
  unfolding step choose cancel
  step-Ordered (call_dispatch msg) h = dispatch-Ordered msg h
  step-Ordered choose_worker h = ground (arith, v)
  step-Ordered take_message h = take-Ordered p.pc p.chain.buffer refl h
  step-Ordered cancel_context h = ground (arith, v)
  step-Ordered (continue_worker k i) h = work-Ordered k i (get_elem? p.workers k) h

Reach-Ordered : {idle : ℕ} {p : Pipeline} {es : List Event} → Reach idle p es → Ordered p es
unfolding new_pipeline
Reach-Ordered (start e) = rw e refl
Reach-Ordered (later {p = p} {es = es} r a h) = step-Ordered p es (Reach-Ordered r) a h

-- The weight of a message that is not nil.
abbrev pub weigh : (ℕ → ℕ) → Message → ℕ
weigh wt none = 0
weigh wt (some n) = wt n

not_nil-total : (wt : ℕ → ℕ) (ms : List Message) → total (weigh wt) ms ≡ total wt (not_nil ms)
not_nil-total wt [] = refl
not_nil-total wt (none ∷ ms) = omega (arith, not_nil-total wt ms)
not_nil-total wt (some n ∷ ms) = ap (λ k. wt n + k) (not_nil-total wt ms)

-- In a run of a worker by itself, what became of the messages that it was handed and that are not
-- nil: each, as often as it was handed, was processed, is in `Process`, is in the worker's channel
-- or is that of a goroutine before its send.
abbrev pub IsHandled : ℕ → List Message → Worker → Type 0
IsHandled idle ms w =
    (ws : List Worker.Event) × Worker.Reach idle w ws
    × ((wt : ℕ → ℕ)
        → total wt (not_nil ms)
          ≡ total wt (processed_messages ws)
            + (total wt (in_hand w.streams)
                + (total wt (not_nil w.chain.buffer) + total (at_send (weigh wt)) w.streams)))

handled : (idle : ℕ) (ms : List Message) {w : Worker} → IsWorker idle ms w → IsHandled idle ms w
handled idle ms {w} (ws, r, n) = (
  ws,
  r,
  λ wt. omega (
    arith,
    n (weigh wt),
    not_nil-total wt ms,
    not_nil-total wt (sent_messages ws),
    ap (total wt) (processed_in_order r),
    total-append wt (processed_messages ws) (in_hand w.streams ++ not_nil w.chain.buffer),
    total-append wt (in_hand w.streams) (not_nil w.chain.buffer),
  ),
)

-- The messages dispatched are those handed to workers, in the same order, followed by those in the
-- channel. The k-th worker is in a state that a worker reaches by itself, by a run in which each
-- message handed to it that is not nil, as often as it was handed, was processed, is in `Process`,
-- is in its channel or is that of a goroutine before its send: none is lost or doubled.
pub handed_in_order :
    {idle : ℕ} {p : Pipeline} {es : List Event}
    → Reach idle p es
    → (dispatched_messages es ≡ handed_messages es ++ p.chain.buffer)
      × ((k : ℕ) (w : Worker) → get_elem? p.workers k ≡ some w → IsHandled idle (handed_to k es) w)
handed_in_order r = let v = Reach-Inv r in (Reach-Ordered r, λ k w f. handled _ _ (v.each k w f))
