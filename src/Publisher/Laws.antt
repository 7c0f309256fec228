-- ===== src/Publisher/Laws.antt =====
-- The publisher does not panic but for a second `Evict`, and respects the topics.
use mathlib.Core.Path.{subst}
use mathlib.Core.Option.{some-injective}
use awesome_patterns.Base.{
  ℕ, ◌≡◌, ◌≢◌, refl, sym, ap, ◌∙◌, Bool, true, false, not, List, [], ◌∷◌, ◌++◌, Option, none, some,
  arith, All, get_elem?, set, everywhere-set, everywhere-append, everywhere-one,
}
use awesome_patterns.Channel.{Chan, make, try_send, try_receive}
use awesome_patterns.Publisher.{
  TopicFunc, Subscriber, SendPc, sending, done, Publisher, panics, moves, is_free, new_publisher,
  subscribe_topic, closed, evict_from, evict, close, goroutines, publish, accepts, send_topic,
  on_send, on_timeout, on_receive, Action, call_subscribe, call_evict, call_close, call_publish,
  send, time_out, receive, step, Reach, start, later,
}
use awesome_patterns.Publisher.Soundness.{
  IsSound, Live, Inv, none-Live, snoc-All, rest-All, new-IsSound, closed-IsSound, changed-Live,
  goroutines-Live, close_all-shut_all, shut_all-IsSound, shut_all,
}

module _ {A : Type 0} (p : Publisher A) (v : Inv p) where
  subscribe_topic-Inv :
      (topic : TopicFunc A) {p' : Publisher A} → subscribe_topic p topic ≡ moves p' → Inv p'
  unfolding subscribe_topic
  subscribe_topic-Inv topic h =
      let new : Subscriber A = record { chan = make p.buffer; topic = topic; registered = true } in
      let q = record p { subscribers = p.subscribers ++ new ∷ [] } in
      subst Inv {x = q} (ground arith) (record {
        each =
            everywhere-append IsSound p.subscribers (new ∷ []) v.each
              (everywhere-one IsSound new (new-IsSound p.buffer topic));
        live = none-Live q.subscribers p.sends (ground arith);
      })

  evict_from-Inv :
      (i : ℕ) (o : Option (Subscriber A)) {p' : Publisher A}
      → get_elem? p.subscribers i ≡ o
      → is_free p.sends ≡ true
      → evict_from p i o ≡ moves p'
      → Inv p'
  unfolding evict_from
  evict_from-Inv i none e f h = cc
  evict_from-Inv i (some s) e f h =
      let q = record p { subscribers = set p.subscribers i (closed s) } in
      subst Inv {x = q} (ground arith) (record {
        each =
            everywhere-set IsSound p.subscribers i (closed s) (closed-IsSound s (v.each i s e))
              v.each;
        live = none-Live q.subscribers p.sends f;
      })

  close-Inv : {p' : Publisher A} → close p ≡ moves p' → Inv p'
  unfolding close
  close-Inv h =
      let q = record p { subscribers = shut_all p.subscribers } in
      let same = close_all-shut_all p.subscribers v.each in
      subst Inv {x = q} (ground (arith, same)) (record {
        each = shut_all-IsSound p.subscribers v.each;
        live = none-Live q.subscribers p.sends (ground arith);
      })

  publish-Inv : (x : A) {p' : Publisher A} → publish p x ≡ moves p' → Inv p'
  unfolding publish
  publish-Inv x h =
      let q = record p { sends = p.sends ++ goroutines 0 p.subscribers x } in
      subst Inv {x = q} (cc) (record {
        each = v.each;
        live =
            everywhere-append (Live p.subscribers) p.sends (goroutines 0 p.subscribers x) v.live (
              goroutines-Live p.subscribers 0 p.subscribers x
                (λ m. ap (get_elem? p.subscribers) (omega arith)));
      })

  ends-Inv : (k : ℕ) → Inv (record p { sends = set p.sends k done })
  ends-Inv k = record {
    each = v.each;
    live = everywhere-set (Live p.subscribers) p.sends k done tt v.live;
  }

  -- A subscriber whose channel has changed stays in the map.
  changed-Inv :
      (i : ℕ) (s : Subscriber A) (c : Chan A) (cs : List (SendPc A))
      → get_elem? p.subscribers i ≡ some s
      → c.closed ≡ s.chan.closed
      → All (λ x. accepts s.topic x ≡ true) c.buffer
      → ((k : ℕ) (pc : SendPc A) → get_elem? cs k ≡ some pc → Live p.subscribers pc)
      → Inv (record p { subscribers = set p.subscribers i (record s { chan = c }); sends = cs })
  changed-Inv i s c cs e f a l = record {
    each =
        everywhere-set IsSound p.subscribers i (record s { chan = c })
          (record { open_ = (v.each i s e).open_ ∙ ap not (sym f); accepted = a }) v.each;
    live = λ k pc g. changed-Live p.subscribers i s (record s { chan = c }) e refl pc (l k pc g);
  }

  sent-Inv :
      (k i : ℕ) (x : A) (s : Subscriber A) {p' : Publisher A}
      → get_elem? p.subscribers i ≡ some s
      → (b : Bool) → accepts s.topic x ≡ b
      → send_topic p k i x (some s) ≡ moves p'
      → Inv p'
  unfolding send_topic try_send
  sent-Inv k i x s e false t h =
      subst Inv {x = record p { sends = set p.sends k done }} (ground (arith, t, h)) (ends-Inv k)
  sent-Inv k i x s e true t h =
      let c = record (s.chan) { buffer = s.chan.buffer ++ x ∷ [] } in
      let cs = set p.sends k done in
      let q = record p { subscribers = set p.subscribers i (record s { chan = c }); sends = cs } in
      subst Inv {x = q} (ground (arith, t, h)) (
        changed-Inv i s c cs e refl
          (snoc-All (λ y. accepts s.topic y ≡ true) s.chan.buffer x (v.each i s e).accepted t)
          (ends-Inv k).live)

  send_topic-Inv :
      (k i : ℕ) (x : A) (o : Option (Subscriber A)) {p' : Publisher A}
      → get_elem? p.subscribers i ≡ o
      → send_topic p k i x o ≡ moves p'
      → Inv p'
  unfolding send_topic
  send_topic-Inv k i x none e h = cc
  send_topic-Inv k i x (some s) e h = sent-Inv k i x s e (accepts s.topic x) refl h

  on_send-Inv :
      (k : ℕ) (o : Option (SendPc A)) {p' : Publisher A} → on_send p k o ≡ moves p' → Inv p'
  unfolding on_send send_topic
  on_send-Inv k (some (sending i x)) h = send_topic-Inv k i x (get_elem? p.subscribers i) refl h
  on_send-Inv k (some done) h = cc
  on_send-Inv k none h = cc

  on_timeout-Inv :
      (k : ℕ) (o : Option (SendPc A)) {p' : Publisher A} → on_timeout p k o ≡ moves p' → Inv p'
  unfolding on_timeout
  on_timeout-Inv k (some (sending i x)) h =
      subst Inv {x = record p { sends = set p.sends k done }} (cc) (ends-Inv k)
  on_timeout-Inv k (some done) h = cc
  on_timeout-Inv k none h = cc

  received-Inv :
      (i : ℕ) (s : Subscriber A) {p' : Publisher A}
      → get_elem? p.subscribers i ≡ some s
      → (xs : List A) → s.chan.buffer ≡ xs
      → on_receive p i (some s) ≡ moves p'
      → Inv p'
  unfolding on_receive try_receive
  received-Inv i s e [] b h = subst Inv {x = p} (ground (arith, b, h)) v
  received-Inv i s e (x ∷ xs) b h =
      let c = record (s.chan) { buffer = xs } in
      let q = record p { subscribers = set p.subscribers i (record s { chan = c }) } in
      subst Inv {x = q} (ground (arith, b, h)) (
        changed-Inv i s c p.sends e refl
          (rest-All (λ y. accepts s.topic y ≡ true) x xs s.chan.buffer b (v.each i s e).accepted)
          v.live)

  on_receive-Inv :
      (i : ℕ) (o : Option (Subscriber A)) {p' : Publisher A}
      → get_elem? p.subscribers i ≡ o
      → on_receive p i o ≡ moves p'
      → Inv p'
  unfolding on_receive
  on_receive-Inv i none e h = cc
  on_receive-Inv i (some s) e h = received-Inv i s e s.chan.buffer refl h

step-Inv :
    {A : Type 0} (p : Publisher A)
    → Inv p
    → (a : Action A) {p' : Publisher A} → step p a ≡ moves p'
    → Inv p'
unfolding step evict
step-Inv p v (call_subscribe topic) h = subscribe_topic-Inv p v topic h
step-Inv p v (call_evict i) h =
    evict_from-Inv p v i (get_elem? p.subscribers i) refl (ground arith) (ground arith)
step-Inv p v call_close h = close-Inv p v h
step-Inv p v (call_publish x) h = publish-Inv p v x h
step-Inv p v (send k) h = on_send-Inv p v k (get_elem? p.sends k) h
step-Inv p v (time_out k) h = on_timeout-Inv p v k (get_elem? p.sends k) h
step-Inv p v (receive i) h = on_receive-Inv p v i (get_elem? p.subscribers i) refl h

Reach-Inv : {A : Type 0} {n : ℕ} {p : Publisher A} → Reach n p → Inv p
unfolding new_publisher
Reach-Inv {n} (start e) = subst Inv (sym e) (record { each = λ i s f. cc; live = λ k c f. cc })
Reach-Inv (later r a h) = step-Inv _ (Reach-Inv r) a h

-- A send to a subscriber of the map finds an open channel.
live_send :
    {A : Type 0} (p : Publisher A)
    → Inv p
    → (k i : ℕ) (x : A) (o : Option (Subscriber A)) → get_elem? p.subscribers i ≡ o
    → (s : Subscriber A) → get_elem? p.subscribers i ≡ some s
    → s.registered ≡ true
    → send_topic p k i x o ≢ panics
unfolding send_topic try_send
live_send p v k i x none e s f r h = cc
live_send p v k i x (some t) e s f r h =
    ground (arith, some-injective _ _ (sym e ∙ f), (v.each i s f).open_, r, h)

send_lem :
    {A : Type 0} (p : Publisher A)
    → Inv p
    → (k : ℕ) (o : Option (SendPc A)) → get_elem? p.sends k ≡ o
    → on_send p k o ≢ panics
unfolding on_send
send_lem p v k none e h = cc
send_lem p v k (some done) e h = cc
send_lem p v k (some (sending i x)) e h =
    let (s, f, r) = v.live k (sending i x) e in
    live_send p v k i x (get_elem? p.subscribers i) refl s f r h

timeout_lem :
    {A : Type 0} (p : Publisher A) (k : ℕ) (o : Option (SendPc A)) → on_timeout p k o ≢ panics
unfolding on_timeout
timeout_lem p k none h = cc
timeout_lem p k (some done) h = cc
timeout_lem p k (some (sending i x)) h = cc

receive_lem :
    {A : Type 0} (p : Publisher A) (i : ℕ) (o : Option (Subscriber A)) → on_receive p i o ≢ panics
unfolding on_receive try_receive
receive_lem p i none h = cc
receive_lem p i (some s) h = ground arith

step_lem :
    {A : Type 0} (p : Publisher A)
    → Inv p
    → (a : Action A) → ((i : ℕ) → a ≢ call_evict i)
    → step p a ≢ panics
unfolding step subscribe_topic close publish
step_lem p v (call_subscribe topic) n h = ground arith
step_lem p v (call_evict i) n h = n i refl
step_lem p v call_close n h = ground (arith, close_all-shut_all p.subscribers v.each)
step_lem p v (call_publish x) n h = cc
step_lem p v (send k) n h = send_lem p v k (get_elem? p.sends k) refl h
step_lem p v (time_out k) n h = timeout_lem p k (get_elem? p.sends k) h
step_lem p v (receive i) n h = receive_lem p i (get_elem? p.subscribers i) h

-- In every state that a publisher can reach, no step but a call of `Evict` panics: `sendTopic` never
-- sends on a closed channel, whatever calls of `Evict` and `Close` wait for the lock, and `Close`
-- never closes a channel twice.
pub publisher_never_panics :
    {A : Type 0} {n : ℕ} {p : Publisher A}
    → Reach n p
    → (a : Action A) → ((i : ℕ) → a ≢ call_evict i)
    → step p a ≢ panics
publisher_never_panics r a n = step_lem _ (Reach-Inv r) a n

-- In every state that a publisher can reach with no `Publish` at work, `Evict` of a subscriber's
-- channel panics just if the channel is out of the map already, by an `Evict` or a `Close` before.
evict_lem :
    {A : Type 0} {n : ℕ} {p : Publisher A}
    → Reach n p
    → is_free p.sends ≡ true
    → (i : ℕ) (s : Subscriber A) → get_elem? p.subscribers i ≡ some s
    → (evict p i ≡ panics → s.registered ≡ false) × (s.registered ≡ false → evict p i ≡ panics)
unfolding evict evict_from
evict_lem {p} r f i s e =
    let o = ((Reach-Inv r).each i s e).open_ in
    (λ h. ground (arith, o, e, f, h), λ g. ground (arith, o, e, f, g))

-- In every state that a publisher can reach, whatever the interleaving, all the values in a
-- subscriber's channel are values that its topic accepts, and the channel is open just if it is in
-- the map.
pub topics_respected :
    {A : Type 0} {n : ℕ} {p : Publisher A}
    → Reach n p
    → (i : ℕ) (s : Subscriber A) → get_elem? p.subscribers i ≡ some s
    → All (λ x. accepts s.topic x ≡ true) s.chan.buffer × (s.registered ≡ not s.chan.closed)
topics_respected r i s e = let w = (Reach-Inv r).each i s e in (w.accepted, w.open_)
