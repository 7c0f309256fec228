-- ===== src/Publisher.antt =====
-- channel/pubsub/main.go: a publisher that sends each value to the subscribers whose topic accepts
-- it, and gives up after a timeout. `main` is not
-- modelled, nor is a buffer of 0, whose send and receive are one step.
pub mod Soundness
pub mod Laws
mod Examples
use awesome_patterns.Base.{
  ℕ, suc, ◌≡◌, Bool, true, false, List, [], ◌∷◌, ◌++◌, Option, none, some, if◌then◌else◌, get_elem?,
  set, ◌&&◌,
}
use awesome_patterns.Channel.{
  Chan, queued, full, send_panics, value, drained, empty, make, try_send, try_receive,
}

-- A topic function; nil accepts every value.
abbrev pub TopicFunc : Type 0 → Type 0
TopicFunc A = Option (A → Bool)

-- A channel that `SubscribeTopic` made, with its topic; `registered` says whether the map of the
-- subscribers has it.
pub record Subscriber (A : Type 0) : Type 0 where
  pub chan : Chan A
  pub topic : TopicFunc A
  pub registered : Bool

-- A goroutine of `sendTopic`, for the subscriber with an index: before its select, or ended.
pub data SendPc (A : Type 0) : Type 0 where
  sending : ℕ → A → SendPc A
  done : SendPc A

-- `sends` are the goroutines of the calls of `Publish`, which hold the lock for reading.
pub record Publisher (A : Type 0) : Type 0 where
  pub buffer : ℕ
  pub subscribers : List (Subscriber A)
  pub sends : List (SendPc A)

pub data Outcome (A : Type 0) : Type 0 where
  blocked : Outcome A
  panics : Outcome A
  moves : Publisher A → Outcome A

-- The lock can be taken for writing when no goroutine of a `Publish` is left.
pub is_free : {A : Type 0} → List (SendPc A) → Bool
is_free [] = true
is_free (done ∷ ss) = is_free ss
is_free (sending i v ∷ ss) = false

module _ {A : Type 0} where
  pub new_publisher : ℕ → Publisher A
  new_publisher buffer = record { buffer = buffer; subscribers = []; sends = [] }

  -- `Subscribe` is this with a nil topic.
  pub subscribe_topic : Publisher A → TopicFunc A → Outcome A
  unfolding is_free
  subscribe_topic p topic =
      if is_free p.sends
      then moves (record p {
        subscribers =
            p.subscribers ++ record { chan = make p.buffer; topic = topic; registered = true } ∷ [];
      })
      else blocked

  -- `close(sub)`, with the subscriber out of the map.
  pub closed : Subscriber A → Subscriber A
  closed s = record s { registered = false; chan = record (s.chan) { closed = true } }

  -- Channels are named by their index; another channel is not given to `Evict`.
  pub evict_from : Publisher A → ℕ → Option (Subscriber A) → Outcome A
  unfolding closed
  evict_from p i none = blocked
  evict_from p i (some s) =
      if s.chan.closed
      then panics
      else moves (record p { subscribers = set p.subscribers i (closed s) })

  pub evict : Publisher A → ℕ → Outcome A
  unfolding is_free evict_from
  evict p i = if is_free p.sends then evict_from p i (get_elem? p.subscribers i) else blocked

  -- `for sub := range p.subscribers { delete(…); close(sub) }`; none where a close panics.
  pub close_all : List (Subscriber A) → Option (List (Subscriber A))
  unfolding closed
  close_all [] = some []
  close_all (s ∷ ss) =
      let rest = close_all ss in
      let s' = if s.registered then (if s.chan.closed then none else some (closed s)) else some s in
      elim s' [ none ↦ none | some t ↦ (elim rest [ none ↦ none | some ts ↦ some (t ∷ ts) ]) ]

  pub close : Publisher A → Outcome A
  unfolding is_free close_all
  close p =
      if is_free p.sends
      then (elim (close_all p.subscribers) [
        | none ↦ panics
        | some ss ↦ moves (record p { subscribers = ss })
      ])
      else blocked

  -- One goroutine for each subscriber in the map.
  pub goroutines : ℕ → List (Subscriber A) → A → List (SendPc A)
  goroutines i [] v = []
  goroutines i (s ∷ ss) v =
      let rest = goroutines (suc i) ss v in if s.registered then sending i v ∷ rest else rest

  pub publish : Publisher A → A → Outcome A
  unfolding goroutines
  publish p v = moves (record p { sends = p.sends ++ goroutines 0 p.subscribers v })

  pub accepts : TopicFunc A → A → Bool
  accepts none v = true
  accepts (some f) v = f v

  -- `if topic != nil && !topic(v) { return }`, and the send
  pub send_topic : Publisher A → ℕ → ℕ → A → Option (Subscriber A) → Outcome A
  unfolding accepts
  send_topic p k i v none = panics
  send_topic p k i v (some s) =
      if accepts s.topic v
      then (elim (try_send s.chan v) [
        | queued c ↦ moves (record p {
          subscribers = set p.subscribers i (record s { chan = c });
          sends = set p.sends k done;
        })
        | full ↦ blocked
        | send_panics ↦ panics
      ])
      else moves (record p { sends = set p.sends k done })

  pub on_send : Publisher A → ℕ → Option (SendPc A) → Outcome A
  unfolding send_topic
  on_send p k (some (sending i v)) = send_topic p k i v (get_elem? p.subscribers i)
  on_send p k (some done) = blocked
  on_send p k none = blocked

  -- `case <-time.After(p.timeout)`; where the topic rejects the value the goroutine ends as well.
  pub on_timeout : Publisher A → ℕ → Option (SendPc A) → Outcome A
  on_timeout p k (some (sending i v)) = moves (record p { sends = set p.sends k done })
  on_timeout p k (some done) = blocked
  on_timeout p k none = blocked

  -- A receive of the client from its channel.
  pub on_receive : Publisher A → ℕ → Option (Subscriber A) → Outcome A
  on_receive p i none = blocked
  on_receive p i (some s) = elim (try_receive s.chan) [
    | value v c ↦ moves (record p { subscribers = set p.subscribers i (record s { chan = c }) })
    | drained ↦ moves p
    | empty ↦ blocked
  ]

pub data Action (A : Type 0) : Type 0 where
  call_subscribe : TopicFunc A → Action A
  call_evict : ℕ → Action A
  call_close : Action A
  call_publish : A → Action A
  send : ℕ → Action A
  time_out : ℕ → Action A
  receive : ℕ → Action A

pub step : {A : Type 0} → Publisher A → Action A → Outcome A
unfolding subscribe_topic evict close publish on_send on_timeout on_receive
step p (call_subscribe topic) = subscribe_topic p topic
step p (call_evict i) = evict p i
step p call_close = close p
step p (call_publish v) = publish p v
step p (send k) = on_send p k (get_elem? p.sends k)
step p (time_out k) = on_timeout p k (get_elem? p.sends k)
step p (receive i) = on_receive p i (get_elem? p.subscribers i)

pub data Reach {A : Type 0} (buffer : ℕ) : Publisher A → Type 0 where
  start : {p : Publisher A} → p ≡ new_publisher buffer → Reach buffer p
  later :
      {p p' : Publisher A} → Reach buffer p → (a : Action A) → step p a ≡ moves p' → Reach buffer p'
