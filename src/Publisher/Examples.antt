-- ===== src/Publisher/Examples.antt =====
-- A publisher with one subscriber, whose topic is zero; two publications.
use awesome_patterns.Base.{ℕ, zero, suc, ◌≡◌, ◌≢◌, refl, Bool, true, false, not, [], ◌∷◌, some, All}
use awesome_patterns.Channel.{make, try_send}
use awesome_patterns.Publisher.{
  Subscriber, sending, done, Publisher, panics, is_free, new_publisher, subscribe_topic, closed,
  evict_from, evict, goroutines, publish, accepts, send_topic, on_send, on_timeout, call_subscribe,
  call_evict, call_publish, send, step, Reach, start, later,
}
use awesome_patterns.Publisher.Laws.{publisher_never_panics, topics_respected}

abbrev is_zero : ℕ → Bool
is_zero zero = true
is_zero (suc n) = false

abbrev zeros : Subscriber ℕ
zeros = record {
  chan = record { capacity = 1; buffer = 0 ∷ []; closed = false };
  topic = some is_zero;
  registered = true;
}

abbrev served : Publisher ℕ
served = record { buffer = 1; subscribers = zeros ∷ []; sends = done ∷ done ∷ [] }

abbrev gone : Publisher ℕ
gone = record served {
  subscribers =
      record zeros { registered = false; chan = record (zeros.chan) { closed = true } } ∷ [];
}

served-Reach : Reach 1 served
unfolding new_publisher subscribe_topic is_free publish goroutines on_send send_topic accepts
    try_send on_timeout step make
served-Reach =
    let r0 : Reach 1 (new_publisher 1) = start refl in
    let r1 : Reach 1
        (record { buffer = 1; subscribers = record zeros { chan = make 1 } ∷ []; sends = [] }) =
      later r0 (call_subscribe (some is_zero)) refl in
    let r2 : Reach 1 (record {
      buffer = 1;
      subscribers = record zeros { chan = make 1 } ∷ [];
      sends = sending 0 0 ∷ [];
    }) =
      later r1 (call_publish 0) refl in
    let r3 : Reach 1 (record { buffer = 1; subscribers = zeros ∷ []; sends = done ∷ [] }) =
      later r2 (send 0) refl in
    let r4 : Reach 1
        (record { buffer = 1; subscribers = zeros ∷ []; sends = done ∷ sending 0 7 ∷ [] }) =
      later r3 (call_publish 7) refl in
    later r4 (send 1) refl

gone-Reach : Reach 1 gone
unfolding evict evict_from closed is_free step
gone-Reach = later served-Reach (call_evict 0) refl

publisher_never_panics_example : step gone (call_publish 3) ≢ panics
publisher_never_panics_example = publisher_never_panics gone-Reach (call_publish 3) (λ i. cc)

topics_respected_example : All (λ x. accepts (some is_zero) x ≡ true) (0 ∷ []) × (true ≡ not false)
topics_respected_example = topics_respected served-Reach 0 zeros refl
