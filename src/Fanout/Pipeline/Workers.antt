-- ===== src/Fanout/Pipeline/Workers.antt =====
-- The workers of a pipeline are workers, each with the messages that it was handed.
use mathlib.Core.Path.{subst}
use awesome_patterns.Base.{
  ℕ, ◌<◌, ◌+◌, ◌%◌, ◌≡◌, ◌≢◌, refl, sym, ap, ◌∙◌, false, List, [], ◌∷◌, ◌++◌, Option, none, some,
  arith, ite, ℕ_discrete, length, length-set, length-replicate, get_elem?, total, total-snoc,
  get_elem?-replicate, others-set,
}
use awesome_patterns.Channel.{Chan, try_send, try_receive}
use awesome_patterns.Fanout.Worker.{Message, Worker, new_worker, start_stream, continue_stream}
use awesome_patterns.Fanout.Worker
use awesome_patterns.Fanout.Worker.Order.{sent_messages}
use awesome_patterns.Fanout.Worker.Sends.{at_send, given, step-sends}
use awesome_patterns.Fanout.Pipeline.{
  max_workers, StartPc, choosing, waiting, stopped, Pipeline, new_pipeline, Event, silent,
  dispatched, handed, worked, Outcome, moves, dispatch, expectation, choose, hand_over, take,
  cancel, work, Action, call_dispatch, choose_worker, take_message, cancel_context, continue_worker,
  step, Reach, start, later,
}

-- A choice is the index of a worker.
abbrev pub Chosen : StartPc → Type 0
Chosen (waiting k) = k < max_workers
Chosen _ = Unit

-- The messages handed to one worker.
abbrev pub handed_to : ℕ → List Event → List Message
handed_to k [] = []
handed_to k (handed j m ∷ es) =
    let rest = handed_to k es in ite (ℕ_discrete j k) (rest ++ m ∷ []) rest
handed_to k (_ ∷ es) = handed_to k es

-- A worker's state is one that the worker reaches by itself, where each message that it was handed,
-- as often as it was handed it, has gone into its channel or is that of a goroutine before its
-- send, and no other message is or has.
abbrev pub IsWorker : ℕ → List Message → Worker → Type 0
IsWorker idle ms w =
    (ws : List Worker.Event) × Worker.Reach idle w ws
    × ((wt : Message → ℕ)
        → total wt ms ≡ total wt (sent_messages ws) + total (at_send wt) w.streams)

pub record Inv (idle : ℕ) (p : Pipeline) (es : List Event) : Type 0 where
  pub size : length p.workers ≡ max_workers
  pub chosen : Chosen p.pc
  pub open_ : p.chain.closed ≡ false
  pub each :
      (k : ℕ) (w : Worker) → get_elem? p.workers k ≡ some w → IsWorker idle (handed_to k es) w

-- The invariant behind a step that moves.
abbrev After : ℕ → List Event → Outcome → Type 0
After idle es (moves p e) = Inv idle p (e ∷ es)
After idle es _ = Unit

-- The choice is always below the number of workers, so that the guard behind it never acts.
expectation-lt : (n : ℕ) → (expectation n < max_workers) × (expectation n ≡ n % max_workers)
unfolding expectation
expectation-lt n = (ground arith, ground arith)

-- A handed message counts for its worker and for no other.
handed_to_self :
    (k : ℕ) (m : Message) (es : List Event) (wt : Message → ℕ)
    → total wt (handed_to k (handed k m ∷ es)) ≡ total wt (handed_to k es) + wt m
handed_to_self k m es wt = ground (arith, total-snoc wt (handed_to k es) m)

handed_to_other :
    (j k : ℕ) (m : Message) (es : List Event)
    → j ≢ k
    → handed_to k (handed j m ∷ es) ≡ handed_to k es
handed_to_other j k m es h = ground (arith, h)

-- A step of a worker that is given the messages of the step.
step-IsWorker :
    (idle : ℕ) (ms ns : List Message) (a : Worker.Action) {w w' : Worker} {e : Worker.Event}
    → Worker.step w a ≡ Worker.moves w' e
    → ((wt : Message → ℕ) → total wt ns ≡ total wt ms + given wt a)
    → IsWorker idle ms w
    → IsWorker idle ns w'
step-IsWorker idle ms ns a {w} {w'} {e} h g (ws, r, n) =
    (e ∷ ws, Worker.later r a h, λ wt. omega (arith, g wt, n wt, step-sends wt w ws a h))

module _ (idle : ℕ) (p : Pipeline) (es : List Event) (v : Inv idle p es) where
  -- A step that leaves the workers alone.
  kept :
      (q : Pipeline) (e : Event) {p' : Pipeline} {e' : Event}
      → moves q e ≡ moves p' e'
      → q.workers ≡ p.workers
      → Chosen q.pc
      → q.chain.closed ≡ false
      → ((k : ℕ) → handed_to k (e ∷ es) ≡ handed_to k es)
      → Inv idle p' (e' ∷ es)
  kept q e m f c o n = subst (After idle es) m (record {
    size = ap length f ∙ v.size;
    chosen = c;
    open_ = o;
    each = λ k w g.
        subst (λ ms. IsWorker idle ms w) (sym (n k))
          (v.each k w (ap (λ ws. get_elem? ws k) (sym f) ∙ g));
  })

  dispatch-Inv :
      (msg : Message) {p' : Pipeline} {e : Event}
      → dispatch p msg ≡ moves p' e
      → Inv idle p' (e ∷ es)
  unfolding dispatch try_send
  dispatch-Inv msg h =
      kept (record p { chain = record (p.chain) { buffer = p.chain.buffer ++ msg ∷ [] } })
        (dispatched msg) (ground (arith, v.open_)) refl v.chosen v.open_ (λ k. refl)

  choose-Inv :
      (c : StartPc) {p' : Pipeline} {e : Event} → choose p c ≡ moves p' e → Inv idle p' (e ∷ es)
  unfolding choose
  choose-Inv choosing h =
      kept (record p { pc = waiting (expectation (length p.chain.buffer)) }) silent h refl
        (expectation-lt (length p.chain.buffer)).0 v.open_ (λ k. refl)
  choose-Inv (waiting k) h = cc
  choose-Inv stopped h = cc

  cancel-Inv :
      (c : StartPc) {p' : Pipeline} {e : Event} → cancel p c ≡ moves p' e → Inv idle p' (e ∷ es)
  unfolding cancel
  cancel-Inv (waiting k) h = kept (record p { pc = stopped }) silent h refl tt v.open_ (λ k. refl)
  cancel-Inv choosing h = cc
  cancel-Inv stopped h = cc

  hand_over-Inv :
      (k : ℕ) (msg : Message) (c : Chan Message) (o : Option Worker) {p' : Pipeline} {e : Event}
      → get_elem? p.workers k ≡ o
      → c.closed ≡ false
      → hand_over p k msg c o ≡ moves p' e
      → Inv idle p' (e ∷ es)
  unfolding hand_over Worker.step
  hand_over-Inv k msg c none f g h = cc
  hand_over-Inv k msg c (some w) f g h =
      let w' = record w { streams = w.streams ++ Worker.sending msg ∷ [] } in
      let ms = λ (j : ℕ). handed_to j (handed k msg ∷ es) in
      subst (After idle es) h (record {
        size = length-set p.workers k w' ∙ v.size;
        chosen = tt;
        open_ = g;
        each =
            others-set (λ j u. IsWorker idle (ms j) u) p.workers k w'
              (step-IsWorker idle (handed_to k es) (ms k) (start_stream msg) {w = w} {w' = w'} refl
                (handed_to_self k msg es) (v.each k w f))
              (λ j u n d.
                subst (λ l. IsWorker idle l u) (sym (handed_to_other k j msg es n)) (v.each j u d));
      })

  take-Inv :
      (c : StartPc) (q : List Message) {p' : Pipeline} {e : Event}
      → p.chain.buffer ≡ q
      → take p c ≡ moves p' e
      → Inv idle p' (e ∷ es)
  unfolding take try_receive
  take-Inv (waiting k) [] f h = absurd (ground (arith, f, v.open_))
  take-Inv (waiting k) (msg ∷ rest) f h =
      hand_over-Inv k msg (record (p.chain) { buffer = rest }) (get_elem? p.workers k) refl v.open_
        (ground (arith, f))
  take-Inv choosing q f h = cc
  take-Inv stopped q f h = cc

  worked-Inv :
      (k i : ℕ) (w : Worker) (r : Worker.Outcome) {p' : Pipeline} {e : Event}
      → get_elem? p.workers k ≡ some w
      → Worker.step w (continue_stream i) ≡ r
      → worked p k r ≡ moves p' e
      → Inv idle p' (e ∷ es)
  unfolding worked
  worked-Inv k i w (Worker.moves w' e') f g h = subst (After idle es) h (record {
    size = length-set p.workers k w' ∙ v.size;
    chosen = v.chosen;
    open_ = v.open_;
    each =
        others-set (λ j u. IsWorker idle (handed_to j es) u) p.workers k w'
          (step-IsWorker idle (handed_to k es) (handed_to k es) (continue_stream i) g
            (λ wt. omega arith) (v.each k w f))
          (λ j u n d. v.each j u d);
  })
  worked-Inv k i w Worker.blocked f g h = cc
  worked-Inv k i w Worker.panics f g h = cc

  work-Inv :
      (k i : ℕ) (o : Option Worker) {p' : Pipeline} {e : Event}
      → get_elem? p.workers k ≡ o
      → work p k i o ≡ moves p' e
      → Inv idle p' (e ∷ es)
  unfolding work
  work-Inv k i none f h = cc
  work-Inv k i (some w) f h = worked-Inv k i w (Worker.step w (continue_stream i)) f refl h

step-Inv :
    (idle : ℕ) (p : Pipeline) (es : List Event)
    → Inv idle p es
    → (a : Action) {p' : Pipeline} {e : Event} → step p a ≡ moves p' e
    → Inv idle p' (e ∷ es)
unfolding step
step-Inv idle p es v (call_dispatch msg) h = dispatch-Inv idle p es v msg h
step-Inv idle p es v choose_worker h = choose-Inv idle p es v p.pc h
step-Inv idle p es v take_message h = take-Inv idle p es v p.pc p.chain.buffer refl h
step-Inv idle p es v cancel_context h = cancel-Inv idle p es v p.pc h
step-Inv idle p es v (continue_worker k i) h =
    work-Inv idle p es v k i (get_elem? p.workers k) refl h

-- A new worker was handed nothing.
new-IsWorker : (idle : ℕ) {w : Worker} → new_worker idle ≡ w → IsWorker idle [] w
unfolding new_worker
new-IsWorker idle e = subst (IsWorker idle []) e ([], Worker.start refl, λ wt. refl)

new_pipeline-Inv : (idle : ℕ) → Inv idle (new_pipeline idle) []
unfolding new_pipeline
new_pipeline-Inv idle = record {
  size = length-replicate max_workers (new_worker idle);
  chosen = tt;
  open_ = refl;
  each = λ k w e. new-IsWorker idle (get_elem?-replicate max_workers k (new_worker idle) e);
}

pub Reach-Inv : {idle : ℕ} {p : Pipeline} {es : List Event} → Reach idle p es → Inv idle p es
Reach-Inv {idle} (start e) = subst (λ p. Inv idle p []) (sym e) (new_pipeline-Inv idle)
Reach-Inv {idle} (later {p = p} {es = es} r a h) = step-Inv idle p es (Reach-Inv r) a h

-- Whatever is dispatched and in whatever order the goroutines go, there are sixteen workers. The
-- k-th is in a state that a worker reaches by itself, by a run in which the messages that went into
-- its channel, with those of its goroutines that are before their send, are the ones handed to the
-- k-th worker, each as often.
pub pipeline_refines_worker :
    {idle : ℕ} {p : Pipeline} {es : List Event}
    → Reach idle p es
    → (length p.workers ≡ 16)
      × ((k : ℕ) (w : Worker) → get_elem? p.workers k ≡ some w → IsWorker idle (handed_to k es) w)
pipeline_refines_worker r = let v = Reach-Inv r in (v.size, v.each)
