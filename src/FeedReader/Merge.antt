-- ===== src/FeedReader/Merge.antt =====
-- concurrency/feedreader/main.go: `Merge`, with one goroutine for each subscription, and the `Close`
-- of the merged subscription. A step is one communication of one of them.
pub mod Invariant
pub mod Safety
pub mod Errors
pub mod Progress
mod Examples
use awesome_patterns.Base.{
  ℕ, zero, suc, ◌≡◌, Bool, true, false, List, [], ◌∷◌, ◌++◌, Option, none, some, if◌then◌else◌,
  length, get_elem?, set, replicate,
}
use awesome_patterns.FeedReader.{Item, Error}

-- Where the goroutine of one subscription stands: in its first `select`, in the second one with the
-- item, in the send of what `s.Close()` returned on `m.errs`, or behind its `return`.
pub data Forwarder : Type 0 where
  receiving : Forwarder
  sending : Item → Forwarder
  reporting : Option Error → Forwarder
  done : Forwarder

-- Where `Close` stands: not called, with `remaining` passes of its `for` to go, or returned.
pub data Closer : Type 0 where
  not_called : Closer
  collecting : (remaining : ℕ) → Closer
  returned : Closer

-- `quit` and `updates_closed` say whether the channels are closed; `err` is the result of `Close`.
pub record Merged : Type 0 where
  pub subs : List Forwarder
  pub quit : Bool
  pub closer : Closer
  pub err : Option Error
  pub updates_closed : Bool

-- `Merge(subs...)` of `n` subscriptions.
pub merge : ℕ → Merged
merge n = record {
  subs = replicate n receiving;
  quit = false;
  closer = not_called;
  err = none;
  updates_closed = false;
}

pub data Action : Type 0 where
  receive : (sub : ℕ) → Item → Action
  deliver : (sub : ℕ) → Action
  quit_sub : (sub : ℕ) → Option Error → Action
  report : (sub : ℕ) → Action
  call_close : Action
  finish_close : Action

-- A communication is not ready, or panics, or leads on.
pub data Outcome : Type 0 where
  blocked : Outcome
  panics : Outcome
  moves : Merged → Outcome

abbrev pub move : Merged → ℕ → Forwarder → Merged
move m i p = record m { subs = set m.subs i p }

pub on_receive : Merged → ℕ → Item → Option Forwarder → Outcome
on_receive m i it (some receiving) = moves (move m i (sending it))
on_receive m i it _ = blocked

-- A send on a closed channel panics.
pub on_deliver : Merged → ℕ → Option Forwarder → Outcome
on_deliver m i (some (sending it)) = if m.updates_closed then panics else moves (move m i receiving)
on_deliver m i _ = blocked

-- `case <-m.quit` of either `select`, and the call of `s.Close()`.
pub on_quit : Merged → ℕ → Option Error → Option Forwarder → Outcome
on_quit m i e (some receiving) = if m.quit then moves (move m i (reporting e)) else blocked
on_quit m i e (some (sending it)) = if m.quit then moves (move m i (reporting e)) else blocked
on_quit m i e _ = blocked

-- `if e := <-m.errs; e != nil { err = e }`
abbrev pub keep_error : Option Error → Option Error → Option Error
keep_error old none = old
keep_error old (some e) = some e

pub collect_error : Merged → ℕ → Option Error → Closer → Outcome
collect_error m i e (collecting (suc k)) =
    moves (record m { subs = set m.subs i done; closer = collecting k; err = keep_error m.err e })
collect_error m i e _ = blocked

pub on_report : Merged → ℕ → Option Forwarder → Outcome
unfolding collect_error
on_report m i (some (reporting e)) = collect_error m i e m.closer
on_report m i _ = blocked

-- A second call closes `quit` again, and panics.
pub on_call : Merged → Closer → Outcome
on_call m not_called = moves (record m { quit = true; closer = collecting (length m.subs) })
on_call m _ = panics

pub on_finish : Merged → Closer → Outcome
on_finish m (collecting zero) = moves (record m { closer = returned; updates_closed = true })
on_finish m _ = blocked

pub step : Merged → Action → Outcome
unfolding on_receive on_deliver on_quit on_report on_call on_finish
step m (receive i it) = on_receive m i it (get_elem? m.subs i)
step m (deliver i) = on_deliver m i (get_elem? m.subs i)
step m (quit_sub i e) = on_quit m i e (get_elem? m.subs i)
step m (report i) = on_report m i (get_elem? m.subs i)
step m call_close = on_call m m.closer
step m finish_close = on_finish m m.closer

-- The state after some actions, from `Merge` of `n` subscriptions, the latest action first.
pub data Reach (n : ℕ) : Merged → List Action → Type 0 where
  start : {m : Merged} → m ≡ merge n → Reach n m []
  later :
      {m m' : Merged} {acts : List Action}
      → Reach n m acts
      → (a : Action) → step m a ≡ moves m'
      → Reach n m' (a ∷ acts)
