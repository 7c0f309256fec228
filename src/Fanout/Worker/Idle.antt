-- ===== src/Fanout/Worker/Idle.antt =====
-- When a worker's goroutine leaves its loop.
use awesome_patterns.Base.{
  ℕ, zero, suc, ◌+◌, ◌-◌, ◌<◌, ◌≡◌, ◌≢◌, refl, sym, ap, ◌∙◌, ◌%◌, ◌^◌, false, List, [], ◌∷◌, Option,
  none, some, arith, get_elem?, set-set, get_elem?-set_self,
}
use awesome_patterns.Channel.{try_receive}
use awesome_patterns.Fanout.Worker.{
  Message, processing, on_message, looping, leaving, Worker, Event, silent, moves, at, on_default,
  on_select, on_stream, continue_stream, step,
}

-- `n` steps of one goroutine.
abbrev pub passes : ℕ → ℕ → Worker → Option Worker
passes zero i w = some w
passes (suc n) i w = elim (step w (continue_stream i)) [ moves w' e ↦ passes n i w' | _ ↦ none ]

module _ (i : ℕ) where
  idle_pass :
      (w : Worker) (k : ℕ)
      → w.chain.buffer ≡ []
      → w.chain.closed ≡ false
      → get_elem? w.streams i ≡ some (looping k)
      → k < w.idle
      → w.idle < 2 ^ 32
      → step w (continue_stream i) ≡ moves (at w i (looping (suc k))) silent
  unfolding step on_stream on_select on_default try_receive
  idle_pass w k b c e lo hi = ground arith

  last_pass :
      (w : Worker) (k : ℕ)
      → w.chain.buffer ≡ []
      → w.chain.closed ≡ false
      → get_elem? w.streams i ≡ some (looping k)
      → k ≡ w.idle
      → w.idle + 1 < 2 ^ 32
      → step w (continue_stream i) ≡ moves (at w i leaving) silent
  unfolding step on_stream on_select on_default try_receive
  last_pass w k b c e lo hi = ground arith

  -- While nothing comes into its channel, a goroutine that stands in the loop after `k` idle passes
  -- leaves it after `idle - k` more and one, if the bound `idle` is below the greatest 32-bit
  -- number.
  leaves_when_idle :
      (n k : ℕ) (w : Worker)
      → w.chain.buffer ≡ []
      → w.chain.closed ≡ false
      → get_elem? w.streams i ≡ some (looping k)
      → k + n ≡ w.idle
      → w.idle + 1 < 2 ^ 32
      → passes (suc n) i w ≡ some (at w i leaving)
  leaves_when_idle zero k w b c e s hi = ground (arith, last_pass w k b c e (omega arith) hi)
  leaves_when_idle (suc n) k w b c e s hi =
      let next = at w i (looping (suc k)) in
      let ih =
        leaves_when_idle n (suc k) next b c (get_elem?-set_self w.streams i (looping (suc k)) e)
          (omega arith) hi in
      ground (
        arith,
        ih,
        idle_pass w k b c e (omega arith) (omega arith),
        set-set w.streams i (looping (suc k)) leaving,
      )

  stays_in :
      (w : Worker) (k : ℕ) (q : List Message) {w' : Worker} {e : Event}
      → w.idle ≡ 2 ^ 32 - 1
      → get_elem? w.streams i ≡ some (looping k)
      → w.chain.buffer ≡ q
      → on_select w i k ≡ moves w' e
      → get_elem? w'.streams i ≢ some leaving
  unfolding on_select on_message on_default try_receive
  stays_in w k [] b e g h f = ground (
    arith,
    g,
    get_elem?-set_self w.streams i (looping ((k + 1) % 2 ^ 32)) e,
    get_elem?-set_self w.streams i (looping 0) e,
  )
  stays_in w k (none ∷ rest) b e g h f =
      ground (arith, g, get_elem?-set_self w.streams i (looping 0) e)
  stays_in w k (some n ∷ rest) b e g h f =
      ground (arith, g, get_elem?-set_self w.streams i (processing n) e)

  -- With the greatest 32-bit number as its bound, no goroutine ever leaves the loop: the counter
  -- wraps to 0 instead.
  pub never_leaves :
      (w : Worker) (k : ℕ) {w' : Worker} {e : Event}
      → w.idle ≡ 2 ^ 32 - 1
      → get_elem? w.streams i ≡ some (looping k)
      → step w (continue_stream i) ≡ moves w' e
      → get_elem? w'.streams i ≢ some leaving
  unfolding step on_stream
  never_leaves w k b e h f = stays_in w k w.chain.buffer b e refl (ap (on_stream w i) (sym e) ∙ h) f
