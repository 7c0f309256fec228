-- ===== src/FeedReader/NaiveMerge.antt =====
-- concurrency/feedreader/main.go: `naiveMerge`, whose goroutines do not listen for `Close`.
pub mod Laws
mod Examples
use awesome_patterns.Base.{
  ℕ, ◌≡◌, zero, suc, Bool, true, false, List, [], ◌∷◌, Option, none, some, if◌then◌else◌, length,
  get_elem?, set, replicate,
}
use awesome_patterns.FeedReader.{Item, Error}

-- The goroutine of a subscription: at its receive, at its send on `updates`, or ended.
pub data Forwarder : Type 0 where
  receiving : Forwarder
  sending : Item → Forwarder
  done : Forwarder

-- `Close`: not called, with some subscriptions still to close, or returned.
pub data Closer : Type 0 where
  not_called : Closer
  closing : ℕ → Closer
  returned : Closer

pub record NaiveMerged : Type 0 where
  pub subs : List Forwarder
  pub closer : Closer
  pub err : Option Error
  pub updates_closed : Bool

pub naive_merge : ℕ → NaiveMerged
naive_merge n = record {
  subs = replicate n receiving;
  closer = not_called;
  err = none;
  updates_closed = false;
}

pub data Action : Type 0 where
  receive : ℕ → Item → Action
  drain : ℕ → Action
  deliver : ℕ → Action
  call_close : Action
  close_sub : Option Error → Action
  finish_close : Action

pub data Outcome : Type 0 where
  blocked : Outcome
  panics : Outcome
  moves : NaiveMerged → Outcome

-- `for it := range s.Updates()`: an item, or the end of the closed channel.
pub on_receive : NaiveMerged → ℕ → Item → Option Forwarder → Outcome
on_receive m i it (some receiving) = moves (record m { subs = set m.subs i (sending it) })
on_receive m i it _ = blocked

pub on_drain : NaiveMerged → ℕ → Option Forwarder → Outcome
on_drain m i (some receiving) = moves (record m { subs = set m.subs i done })
on_drain m i _ = blocked

-- `m.updates <- it`, received by the client; on the closed channel it panics.
pub on_deliver : NaiveMerged → ℕ → Option Forwarder → Outcome
on_deliver m i (some (sending it)) =
    if m.updates_closed then panics else moves (record m { subs = set m.subs i receiving })
on_deliver m i _ = blocked

-- The one call of `Close` that is modelled; a further one would close `updates` again.
pub on_call : NaiveMerged → Closer → Outcome
on_call m not_called = moves (record m { closer = closing (length m.subs) })
on_call m _ = blocked

-- `if e := sub.Close(); err == nil && e != nil { err = e }`
pub keep_first : Option Error → Option Error → Option Error
keep_first none e = e
keep_first (some old) e = some old

pub on_close_sub : NaiveMerged → Option Error → Closer → Outcome
unfolding keep_first
on_close_sub m e (closing (suc k)) =
    moves (record m { closer = closing k; err = keep_first m.err e })
on_close_sub m e _ = blocked

pub on_finish : NaiveMerged → Closer → Outcome
on_finish m (closing zero) = moves (record m { closer = returned; updates_closed = true })
on_finish m _ = blocked

pub step : NaiveMerged → Action → Outcome
unfolding on_receive on_drain on_deliver on_call on_close_sub on_finish
step m (receive i it) = on_receive m i it (get_elem? m.subs i)
step m (drain i) = on_drain m i (get_elem? m.subs i)
step m (deliver i) = on_deliver m i (get_elem? m.subs i)
step m call_close = on_call m m.closer
step m (close_sub e) = on_close_sub m e m.closer
step m finish_close = on_finish m m.closer

-- The state after some actions, from `NaiveMerge` of `n` subscriptions, the latest action first.
pub data Reach (n : ℕ) : NaiveMerged → List Action → Type 0 where
  start : {m : NaiveMerged} → m ≡ naive_merge n → Reach n m []
  later :
      {m m' : NaiveMerged} {acts : List Action}
      → Reach n m acts
      → (a : Action) → step m a ≡ moves m'
      → Reach n m' (a ∷ acts)
