-- ===== src/Fanout/Worker/Order.antt =====
-- The order in which a worker processes its messages.
use mathlib.Core.Option.{some-injective}
use awesome_patterns.Base.{
  ℕ, zero, suc, ◌+◌, ◌≤◌, ◌≡◌, refl, sym, ap, ◌∙◌, ◌%◌, ◌^◌, List, [], ◌∷◌, ◌++◌, Option, none,
  some, arith, total-get_elem?, append-nil, append_assoc, get_elem?, set, total,
}
use awesome_patterns.Channel.{try_send, try_receive}
use awesome_patterns.Fanout.Worker.{
  Message, StreamPc, sending, checking, locking, marking, starting, looping, processing, leaving,
  unlocking, clearing, ended, Worker, new_worker, Event, sent, processed, moves, on_send,
  on_message, on_default, on_select, on_stream, Action, start_stream, continue_stream, step, Reach,
  start, later,
}
use awesome_patterns.Fanout.Worker.Exclusion.{inside, held-le, Inv, Reach-Inv}

-- The messages that are not nil.
abbrev pub not_nil : List Message → List ℕ
not_nil [] = []
not_nil (none ∷ ms) = not_nil ms
not_nil (some n ∷ ms) = n ∷ not_nil ms

not_nil-append : (ms ns : List Message) → not_nil (ms ++ ns) ≡ not_nil ms ++ not_nil ns
not_nil-append [] ns = refl
not_nil-append (none ∷ ms) ns = not_nil-append ms ns
not_nil-append (some n ∷ ms) ns = ap (◌∷◌ n) (not_nil-append ms ns)

-- The message in `Process`.
abbrev pub hand : StreamPc → List ℕ
hand (processing n) = n ∷ []
hand _ = []

abbrev pub in_hand : List StreamPc → List ℕ
in_hand [] = []
in_hand (p ∷ ps) = hand p ++ in_hand ps

-- The messages that went into the channel, and those whose `Process` has ended.
abbrev pub sent_messages : List Event → List Message
sent_messages [] = []
sent_messages (sent m ∷ es) = sent_messages es ++ m ∷ []
sent_messages (_ ∷ es) = sent_messages es

abbrev pub processed_messages : List Event → List ℕ
processed_messages [] = []
processed_messages (processed n ∷ es) = processed_messages es ++ n ∷ []
processed_messages (_ ∷ es) = processed_messages es

outside : (ps : List StreamPc) → total inside ps ≡ 0 → in_hand ps ≡ []
outside [] h = refl
outside (processing n ∷ ps) h = absurd (omega arith)
outside (sending m ∷ ps) h = outside ps (omega arith)
outside (checking ∷ ps) h = outside ps (omega arith)
outside (locking ∷ ps) h = outside ps (omega arith)
outside (marking ∷ ps) h = absurd (omega arith)
outside (starting ∷ ps) h = absurd (omega arith)
outside (looping idle ∷ ps) h = absurd (omega arith)
outside (leaving ∷ ps) h = absurd (omega arith)
outside (unlocking ∷ ps) h = absurd (omega arith)
outside (clearing ∷ ps) h = outside ps (omega arith)
outside (ended ∷ ps) h = outside ps (omega arith)

outside-hand : (p : StreamPc) → inside p ≡ 0 → hand p ≡ []
outside-hand p h = sym (append-nil (hand p)) ∙ outside (p ∷ []) (omega arith)

-- One goroutine inside is the only one that may have a message.
alone :
    (ps : List StreamPc) (i : ℕ) (p' : StreamPc) {p : StreamPc}
    → total inside ps ≤ 1
    → get_elem? ps i ≡ some p
    → inside p ≡ 1
    → (in_hand ps ≡ hand p) × (in_hand (set ps i p') ≡ hand p')
alone [] i p' t e f = cc
alone (x ∷ ps) zero p' t e f =
    let rest = outside ps (ground arith) in
    ground (arith, rest, append-nil (hand x), append-nil (hand p'))
alone (x ∷ ps) (suc i) p' t e f =
    let pos = total-get_elem? inside ps i e in
    let (a, b) = alone ps i p' (omega arith) e f in
    let none_here = outside-hand x (omega arith) in (ground arith, ground arith)

-- A step between two places without a message.
unmoved :
    (ps : List StreamPc) (i : ℕ) (p' : StreamPc) {p : StreamPc}
    → get_elem? ps i ≡ some p
    → hand p ≡ hand p'
    → in_hand (set ps i p') ≡ in_hand ps
unmoved [] i p' e f = refl
unmoved (x ∷ ps) zero p' e f = ground (arith, ap hand (some-injective _ _ e))
unmoved (x ∷ ps) (suc i) p' e f = ap (λ ns. hand x ++ ns) (unmoved ps i p' e f)

abbrev Ordered : Worker → List Event → Type 0
Ordered w es =
    not_nil (sent_messages es)
    ≡ processed_messages es ++ (in_hand w.streams ++ not_nil w.chain.buffer)

in_hand-snoc : (ps : List StreamPc) (m : Message) → in_hand (ps ++ sending m ∷ []) ≡ in_hand ps
in_hand-snoc [] m = refl
in_hand-snoc (p ∷ ps) m = ap (λ ns. hand p ++ ns) (in_hand-snoc ps m)

module _ (w : Worker) (es : List Event) (v : Ordered w es) (u : Inv w) (i : ℕ) where
  on_send-Ordered :
      (msg : Message) {w' : Worker} {e : Event}
      → get_elem? w.streams i ≡ some (sending msg)
      → on_send w i msg ≡ moves w' e
      → Ordered w' (e ∷ es)
  unfolding on_send try_send
  on_send-Ordered msg f h = ground (
    arith,
    v,
    unmoved w.streams i checking f refl,
    not_nil-append w.chain.buffer (msg ∷ []),
    not_nil-append (sent_messages es) (msg ∷ []),
    append_assoc (processed_messages es) (in_hand w.streams ++ not_nil w.chain.buffer)
        (not_nil (msg ∷ [])),
    append_assoc (in_hand w.streams) (not_nil w.chain.buffer) (not_nil (msg ∷ [])),
  )

  few : total inside w.streams ≤ 1
  few = omega (arith, u.lock, held-le w.locked)

  on_select-Ordered :
      (idle : ℕ) (q : List Message) {w' : Worker} {e : Event}
      → get_elem? w.streams i ≡ some (looping idle)
      → w.chain.buffer ≡ q
      → on_select w i idle ≡ moves w' e
      → Ordered w' (e ∷ es)
  unfolding on_select on_message on_default try_receive
  on_select-Ordered idle [] f g h = ground (
    arith,
    v,
    g,
    u.open_,
    unmoved w.streams i leaving f refl,
    unmoved w.streams i (looping ((idle + 1) % 2 ^ 32)) f refl,
  )
  on_select-Ordered idle (none ∷ rest) f g h =
      ground (arith, v, ap not_nil g, unmoved w.streams i (looping 0) f refl)
  on_select-Ordered idle (some n ∷ rest) f g h =
      ground (arith, v, ap not_nil g, alone w.streams i (processing n) few f refl)

  on_stream-Ordered :
      (o : Option StreamPc) {w' : Worker} {e : Event}
      → get_elem? w.streams i ≡ o
      → on_stream w i o ≡ moves w' e
      → Ordered w' (e ∷ es)
  unfolding on_stream
  on_stream-Ordered (some (sending msg)) f h = on_send-Ordered msg f h
  on_stream-Ordered (some checking) f h =
      ground (arith, v, unmoved w.streams i ended f refl, unmoved w.streams i locking f refl)
  on_stream-Ordered (some locking) f h = ground (arith, v, unmoved w.streams i marking f refl)
  on_stream-Ordered (some marking) f h = ground (arith, v, unmoved w.streams i starting f refl)
  on_stream-Ordered (some starting) f h = ground (arith, v, unmoved w.streams i (looping 0) f refl)
  on_stream-Ordered (some (looping idle)) f h = on_select-Ordered idle w.chain.buffer f refl h
  on_stream-Ordered (some (processing n)) f h = ground (
    arith,
    v,
    alone w.streams i (looping 0) few f refl,
    append_assoc (processed_messages es) (n ∷ []) (not_nil w.chain.buffer),
  )
  on_stream-Ordered (some leaving) f h = ground (arith, v, unmoved w.streams i unlocking f refl)
  on_stream-Ordered (some unlocking) f h = ground (arith, v, unmoved w.streams i clearing f refl)
  on_stream-Ordered (some clearing) f h = ground (arith, v, unmoved w.streams i ended f refl)
  on_stream-Ordered (some ended) f h = cc
  on_stream-Ordered none f h = cc

step-Ordered :
    (w : Worker) (es : List Event)
    → Ordered w es
    → Inv w
    → (a : Action) {w' : Worker} {e : Event} → step w a ≡ moves w' e
    → Ordered w' (e ∷ es)
unfolding step
step-Ordered w es v u (start_stream msg) h = ground (arith, v, in_hand-snoc w.streams msg)
step-Ordered w es v u (continue_stream i) h =
    on_stream-Ordered w es v u i (get_elem? w.streams i) refl h

-- A worker processes the messages that are not nil in the order in which they went into its
-- channel, each once: those processed, then the one in `Process` if there is one, then those in the
-- channel, are all that went into it.
pub processed_in_order :
    {idle : ℕ} {w : Worker} {es : List Event}
    → Reach idle w es
    → not_nil (sent_messages es)
      ≡ processed_messages es ++ (in_hand w.streams ++ not_nil w.chain.buffer)
unfolding new_worker
processed_in_order (start e) = rw e refl
processed_in_order (later {w = w} {es = es} r a h) =
    step-Ordered w es (processed_in_order r) (Reach-Inv r) a h
