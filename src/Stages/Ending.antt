-- ===== src/Stages/Ending.antt =====
-- All goroutines of a pipeline end.
use awesome_patterns.Base.{
  ℕ, suc, ◌≡◌, ◌<◌, ◌⊎◌, inl, inr, refl, ap, ◌∙◌, Bool, true, false, [], ◌∷◌, ◌++◌, Option, none,
  some, arith, Ends, ends,
}
use awesome_patterns.Stages.{
  StagePc, receiving, sending, ended, Chain, generating, generated, stage, LoopPc, ranging, drained,
  left, State, Action, receive_at, finish_at, cancel_at, consume, end_loop, offer, has_ended, below,
  taken, receive, finish, cancel, with_chain, on_cancel, on_consume, on_end, step,
}
use awesome_patterns.Stages.Progress.{loop_work, work_left, step-lt}

module _ {A : Type 0} where
  -- Whether each goroutine of a chain has ended.
  abbrev pub all_ended : Chain A → Bool
  all_ended (generating xs) = false
  all_ended generated = true
  all_ended (stage f receiving up) = false
  all_ended (stage f (sending y) up) = false
  all_ended (stage f ended up) = all_ended up

  abbrev Advances : Chain A → Type 0
  Advances c = (c' : Chain A) × (n : ℕ) × ((receive c n ≡ some c') ⊎ (finish c n ≡ some c'))

  above : (f : A → A) (pc : StagePc A) (up : Chain A) → Advances up → Advances (stage f pc up)
  unfolding receive finish below
  above f pc up (c, n, inl e) = (stage f pc c, suc n, inl (ap (below f pc) e))
  above f pc up (c, n, inr e) = (stage f pc c, suc n, inr (ap (below f pc) e))

  receiver_acts :
      (f : A → A) (up : Chain A) (o : Option (A × Chain A)) (b : Bool)
      → offer up ≡ o
      → has_ended up ≡ b
      → (offer up ≡ none → has_ended up ≡ false → Advances up)
      → Advances (stage f receiving up)
  unfolding receive finish taken
  receiver_acts f up (some (x, c)) b e g h = (stage f (sending (f x)) c, 0, inl (ap (taken f) e))
  receiver_acts f up none true e g h = (stage f ended up, 0, inr (ground (arith, g)))
  receiver_acts f up none false e g h = above f receiving up (h e g)

  -- A chain that is not ready to send and has not ended goes on by itself.
  chain_acts : (c : Chain A) → offer c ≡ none → has_ended c ≡ false → Advances c
  unfolding offer has_ended finish
  chain_acts (generating []) e g = (generated, 0, inr refl)
  chain_acts (generating (x ∷ xs)) e g = cc
  chain_acts generated e g = cc
  chain_acts (stage f receiving up) e g =
      receiver_acts f up (offer up) (has_ended up) refl refl (λ h k. chain_acts up h k)
  chain_acts (stage f (sending y) up) e g = cc
  chain_acts (stage f ended up) e g = cc

  abbrev Winds : Chain A → Type 0
  Winds c = Advances c ⊎ ((c' : Chain A) × (n : ℕ) × (cancel c n ≡ some c'))

  stage-Winds : (f : A → A) (pc : StagePc A) (up : Chain A) → Winds up → Winds (stage f pc up)
  unfolding cancel below
  stage-Winds f pc up (inl a) = inl (above f pc up a)
  stage-Winds f pc up (inr (c, n, e)) = inr (stage f pc c, suc n, ap (below f pc) e)

  -- Once `done` is closed, a chain with a goroutine that has not ended goes on by itself.
  chain-Winds : (c : Chain A) → all_ended c ≡ false → Winds c
  unfolding finish cancel
  chain-Winds (generating []) e = inl (generated, 0, inr refl)
  chain-Winds (generating (x ∷ xs)) e = inr (generated, 0, refl)
  chain-Winds generated e = cc
  chain-Winds (stage f receiving up) e =
      inl (receiver_acts f up (offer up) (has_ended up) refl refl (λ h k. chain_acts up h k))
  chain-Winds (stage f (sending y) up) e = inr (stage f ended up, 0, refl)
  chain-Winds (stage f ended up) e = stage-Winds f ended up (chain-Winds up e)

  -- The loop is over, `done` is closed, and all goroutines of the pipeline have ended.
  pub record IsOver (s : State A) : Type 0 where
    pub loop_over : loop_work s.loop ≡ 0
    pub chain_over : all_ended s.chain ≡ true

  abbrev pub Next : State A → State A → Type 0
  Next s t = (a : Action) × (step s a ≡ some t)

  module _ (s : State A) where
    abbrev Enabled : Type 0
    Enabled = (t : State A) × Next s t

    advance_acts : Advances s.chain → Enabled
    unfolding step
    advance_acts (c, n, inl e) = (record s { chain = c }, (receive_at n, ap (with_chain s) e))
    advance_acts (c, n, inr e) = (record s { chain = c }, (finish_at n, ap (with_chain s) e))

    wind_acts : (l : LoopPc) → s.loop ≡ l → loop_work l ≡ 0 → Winds s.chain → Enabled
    unfolding step on_cancel with_chain
    wind_acts l f h (inl a) = advance_acts a
    wind_acts ranging f h (inr (c, n, e)) = absurd (omega arith)
    wind_acts drained f h (inr (c, n, e)) =
        (record s { chain = c }, (cancel_at n, ap (on_cancel s n) f ∙ ap (with_chain s) e))
    wind_acts left f h (inr (c, n, e)) =
        (record s { chain = c }, (cancel_at n, ap (on_cancel s n) f ∙ ap (with_chain s) e))

    ranging_acts :
        (o : Option (A × Chain A)) (b : Bool)
        → s.loop ≡ ranging
        → offer s.chain ≡ o
        → has_ended s.chain ≡ b
        → Enabled
    unfolding step on_consume on_end
    ranging_acts (some (v, c)) b f g h =
        (record s { chain = c; out = s.out ++ v ∷ [] }, (consume, ground (arith, f, g)))
    ranging_acts none true f g h = (record s { loop = drained }, (end_loop, ground (arith, f, h)))
    ranging_acts none false f g h = advance_acts (chain_acts s.chain g h)

    closed_acts : (b : Bool) → loop_work s.loop ≡ 0 → all_ended s.chain ≡ b → IsOver s ⊎ Enabled
    closed_acts true h e = inl (record { loop_over = h; chain_over = e })
    closed_acts false h e = inr (wind_acts s.loop refl h (chain-Winds s.chain e))

    acts_or_done : (l : LoopPc) → s.loop ≡ l → IsOver s ⊎ Enabled
    acts_or_done ranging f = inr (ranging_acts (offer s.chain) (has_ended s.chain) f refl refl)
    acts_or_done drained f = closed_acts (all_ended s.chain) (ap loop_work f) refl
    acts_or_done left f = closed_acts (all_ended s.chain) (ap loop_work f) refl

  -- From every state of a pipeline, also where the loop over it is left early, there is a run at whose
  -- end the loop is over and all goroutines have ended; and every step makes the work left less, so
  -- that no order of the steps goes on for ever.
  pub pipeline-Ends :
      (s : State A) → Ends Next IsOver s × ((t : State A) → Next s t → work_left t < work_left s)
  pipeline-Ends s = (
    ends Next IsOver (λ q. Unit) work_left (λ q t v n. tt) (λ q t v n. step-lt q n.0 n.1)
        (λ q v. acts_or_done q q.loop refl) s tt,
    λ t n. step-lt s n.0 n.1,
  )
