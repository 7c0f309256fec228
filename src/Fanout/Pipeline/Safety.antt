-- ===== src/Fanout/Pipeline/Safety.antt =====
-- The pipeline does not panic.
use awesome_patterns.Base.{
  ℕ, ◌≡◌, ◌≢◌, refl, List, [], ◌∷◌, Option, none, some, arith, length, get_elem?, get_elem?-lt,
}
use awesome_patterns.Channel.{Chan, try_send, try_receive}
use awesome_patterns.Fanout.Worker.{Message, Worker, new_worker, start_stream, continue_stream}
use awesome_patterns.Fanout.Worker
use awesome_patterns.Fanout.Worker.Exclusion.{worker_never_panics}
use awesome_patterns.Fanout.Pipeline.{
  max_workers, StartPc, choosing, waiting, stopped, Pipeline, Event, worked, panics, dispatch,
  choose, hand_over, take, cancel, work, Action, call_dispatch, choose_worker, take_message,
  cancel_context, continue_worker, step, Reach,
}
use awesome_patterns.Fanout.Pipeline.Workers.{Chosen, Inv, Reach-Inv}

hand_over-safe :
    (p : Pipeline) (k : ℕ) (msg : Message) (c : Chan Message) (o : Option Worker)
    → o ≢ none
    → hand_over p k msg c o ≢ panics
unfolding hand_over Worker.step
hand_over-safe p k msg c none f h = f refl
hand_over-safe p k msg c (some w) f h = cc

take-safe :
    (p : Pipeline) (c : StartPc) (q : List Message)
    → p.chain.buffer ≡ q
    → Chosen c
    → length p.workers ≡ max_workers
    → take p c ≢ panics
unfolding take try_receive
take-safe p (waiting k) [] f g s h = ground (arith, f)
take-safe p (waiting k) (msg ∷ rest) f g s h =
    hand_over-safe p k msg (record (p.chain) { buffer = rest }) (get_elem? p.workers k)
      (get_elem?-lt p.workers k (omega (arith, s))) (ground (arith, f))
take-safe p choosing q f g s h = cc
take-safe p stopped q f g s h = cc

worked-safe :
    (p : Pipeline) (k : ℕ) (o : Worker.Outcome) → o ≢ Worker.panics → worked p k o ≢ panics
unfolding worked
worked-safe p k (Worker.moves w e) f h = cc
worked-safe p k Worker.blocked f h = cc
worked-safe p k Worker.panics f h = f refl

work-safe :
    (idle : ℕ) (p : Pipeline) (es : List Event)
    → Inv idle p es
    → (k i : ℕ) (o : Option Worker) → get_elem? p.workers k ≡ o
    → work p k i o ≢ panics
unfolding work
work-safe idle p es v k i none f h = cc
work-safe idle p es v k i (some w) f h =
    let (ws, r, n) = v.each k w f in
    worked-safe p k (Worker.step w (continue_stream i)) (worker_never_panics r (continue_stream i))
      h

-- No step of the pipeline or of one of its workers panics: the worker that is chosen is there.
pipeline_never_panics :
    {idle : ℕ} {p : Pipeline} {es : List Event} → Reach idle p es → (a : Action) → step p a ≢ panics
unfolding step dispatch choose cancel try_send
pipeline_never_panics r (call_dispatch msg) h = ground (arith, (Reach-Inv r).open_)
pipeline_never_panics r choose_worker h = ground arith
pipeline_never_panics {p = p} r take_message h =
    let v = Reach-Inv r in take-safe p p.pc p.chain.buffer refl v.chosen v.size h
pipeline_never_panics r cancel_context h = ground arith
pipeline_never_panics {idle} {p} {es} r (continue_worker k i) h =
    work-safe idle p es (Reach-Inv r) k i (get_elem? p.workers k) refl h
