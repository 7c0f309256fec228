-- ===== src/Fanout/Worker/Examples.antt =====
-- A worker that leaves its loop after one idle pass, while the next message comes in.
use awesome_patterns.Base.{
  ℕ, zero, suc, ◌≢◌, get_elem?, ◌≡◌, refl, true, false, List, [], ◌∷◌, ◌++◌, some, arith, set,
}
use awesome_patterns.Channel.{Chan, make, try_send, try_receive}
use awesome_patterns.Fanout.Worker.{
  Message, max_queue_size, StreamPc, blocked, sending, leaving, processing, ended, Worker,
  new_worker, Event, silent, sent, processed, on_send, on_message, on_default, on_select, on_stream,
  start_stream, continue_stream, step, Reach, start, later,
}
use awesome_patterns.Fanout.Worker.Exclusion.{one_at_a_time}
use awesome_patterns.Fanout.Worker.Order.{
  not_nil, in_hand, sent_messages, processed_messages, processed_in_order,
}
use awesome_patterns.Fanout.Worker.Stranding.{message_stranded}

abbrev queue : Chan Message
queue = make max_queue_size

-- The first message is in `Process`.
abbrev busy : Worker
busy = record {
  chain = queue;
  running = true;
  locked = true;
  idle = 0;
  streams = processing 5 ∷ [];
}

abbrev busy_events : List Event
busy_events = silent ∷ silent ∷ silent ∷ silent ∷ silent ∷ sent (some 5) ∷ silent ∷ []

busy_reach : Reach 0 busy busy_events
unfolding new_worker step on_stream on_send on_select on_message on_default try_send try_receive
busy_reach =
    let r0 : Reach 0 (new_worker 0) [] = start refl in
    let r1 = later r0 (start_stream (some 5)) refl in
    let r2 = later r1 (continue_stream 0) refl in
    let r3 = later r2 (continue_stream 0) refl in
    let r4 = later r3 (continue_stream 0) refl in
    let r5 = later r4 (continue_stream 0) refl in
    let r6 = later r5 (continue_stream 0) refl in later r6 (continue_stream 0) refl

abbrev late : Worker
late = record busy { streams = leaving ∷ sending (some 7) ∷ [] }

late_reach : Reach 0 late (silent ∷ silent ∷ processed 5 ∷ busy_events)
unfolding new_worker step on_stream on_send on_select on_message on_default try_send try_receive
late_reach =
    later (later (later busy_reach (continue_stream 0) refl) (continue_stream 0) refl)
      (start_stream (some 7)) refl

one_at_a_time_example : ◌≡◌ {A = ℕ} 0 0
one_at_a_time_example = one_at_a_time busy_reach 0 0 refl refl refl refl

processed_in_order_example :
    not_nil (sent_messages busy_events)
    ≡ processed_messages busy_events ++ (in_hand busy.streams ++ not_nil busy.chain.buffer)
processed_in_order_example = processed_in_order busy_reach

no_others : (k : ℕ) (p : StreamPc) → k ≢ 0 → k ≢ 1 → get_elem? late.streams k ≡ some p → p ≡ ended
no_others zero p a b e = absurd (a refl)
no_others (suc zero) p a b e = absurd (b refl)
no_others (suc (suc k)) p a b e = cc

message_stranded_example :
    (w' : Worker) × (new : List Event) × Reach 0 w'
      (new ++ silent ∷ silent ∷ processed 5 ∷ busy_events)
    × (w'.chain.buffer ≡ some 7 ∷ [])
    × (w'.streams ≡ set (set late.streams 1 ended) 0 ended)
    × (w'.running ≡ false)
    × (w'.locked ≡ false)
    × ((k : ℕ) → step w' (continue_stream k) ≡ blocked)
message_stranded_example =
    message_stranded late_reach 0 1 (some 7) refl refl no_others refl (omega arith)
