-- ===== src/Fanout/Pipeline/Examples.antt =====
-- One message on its way through the pipeline.
use awesome_patterns.Base.{
  ℕ, ℕ_discrete, length, get_elem?, ◌≡◌, refl, false, List, [], ◌∷◌, ◌++◌, some, replicate,
}
use awesome_patterns.Channel.{make, try_send, try_receive}
use awesome_patterns.Fanout.Worker.{sending, Worker, new_worker}
use awesome_patterns.Fanout.Worker
use awesome_patterns.Fanout.Pipeline.{
  choosing, master_queue_size, Pipeline, new_pipeline, Event, silent, dispatched, handed, dispatch,
  expectation, choose, hand_over, take, call_dispatch, choose_worker, take_message, step, Reach,
  start, later,
}
use awesome_patterns.Fanout.Pipeline.Workers.{handed_to, IsWorker, pipeline_refines_worker}
use awesome_patterns.Fanout.Pipeline.Order.{
  IsHandled, dispatched_messages, handed_messages, handed_in_order,
}

abbrev given_worker : Worker
given_worker = record {
  chain = make 512;
  running = false;
  locked = false;
  idle = 3;
  streams = sending (some 5) ∷ [];
}

abbrev fresh : Worker
fresh = record given_worker { streams = [] }

abbrev given : Pipeline
given = record {
  workers = fresh ∷ given_worker ∷ replicate 14 fresh;
  chain = make master_queue_size;
  pc = choosing;
}

abbrev events : List Event
events = handed 1 (some 5) ∷ silent ∷ dispatched (some 5) ∷ []

given_reach : Reach 3 given events
unfolding new_pipeline new_worker step dispatch choose expectation take hand_over Worker.step
    try_send try_receive
given_reach =
    let r0 : Reach 3 (new_pipeline 3) [] = start refl in
    let r1 = later r0 (call_dispatch (some 5)) refl in
    let r2 = later r1 choose_worker refl in later r2 take_message refl

pipeline_refines_worker_example :
    (length given.workers ≡ 16)
    × ((k : ℕ) (w : Worker)
        → get_elem? given.workers k ≡ some w
        → IsWorker 3 (handed_to k events) w)
pipeline_refines_worker_example = pipeline_refines_worker given_reach

handed_in_order_example :
    (dispatched_messages events ≡ handed_messages events ++ given.chain.buffer)
    × ((k : ℕ) (w : Worker)
        → get_elem? given.workers k ≡ some w
        → IsHandled 3 (handed_to k events) w)
handed_in_order_example = handed_in_order given_reach

-- The second worker was handed the message.
second_worker : handed_to 1 events ≡ some 5 ∷ []
unfolding ℕ_discrete
second_worker = refl
