-- ===== src/SyncWait.antt =====
-- concurrency/waitgroup/error_handling.go: goroutines of which some report an error on a channel with
-- room for one, and a select that waits for an error or for all to be done.
pub mod Reports
mod Examples
use awesome_patterns.Base.{
  ℕ, zero, suc, ◌+◌, ◌%◌, ◌≡◌, Bool, true, false, List, [], ◌∷◌, ◌++◌, Option, none, some,
  get_elem?, set, ◌==◌, ◌&&◌, if◌then◌else◌,
}
use awesome_patterns.Channel.{
  Chan, queued, full, send_panics, value, drained, empty, make, try_send, try_receive,
}

-- A goroutine: before its test with the error that it will report, if any; before its `wg.Done`; or
-- done.
pub data RoutinePc (E : Type 0) : Type 0 where
  running : Option E → RoutinePc E
  reported : E → RoutinePc E
  gone : Option E → RoutinePc E

pub data MainPc (E : Type 0) : Type 0 where
  selecting : MainPc E
  succeeded : MainPc E
  failed : E → MainPc E

pub record State (E : Type 0) : Type 0 where
  pub routines : List (RoutinePc E)
  pub err_channel : Chan E
  pub finished_closed : Bool
  pub main : MainPc E

pub data Outcome (E : Type 0) : Type 0 where
  blocked : Outcome E
  panics : Outcome E
  moves : State E → Outcome E

-- `if i%4 == 1`, for the goroutines from `i` on.
pub launch : {E : Type 0} → (ℕ → E) → ℕ → ℕ → List (RoutinePc E)
launch errored zero i = []
launch errored (suc n) i =
    running (if i % 4 == 1 then some (errored (i + 1)) else none) ∷ launch errored n (i + 1)

module _ {E : Type 0} where
  pub new : List (RoutinePc E) → State E
  new rs = record { routines = rs; err_channel = make 1; finished_closed = false; main = selecting }

  abbrev pub at : State E → ℕ → RoutinePc E → State E
  at s i r = record s { routines = set s.routines i r }

  -- `errChannel <- Error{...}`
  pub on_report : State E → ℕ → Option (RoutinePc E) → Outcome E
  on_report s i (some (running (some e))) = elim (try_send s.err_channel e) [
    | queued c ↦ moves (record (at s i (reported e)) { err_channel = c })
    | full ↦ blocked
    | send_panics ↦ panics
  ]
  on_report s i (some (running none)) = blocked
  on_report s i (some (reported e)) = blocked
  on_report s i (some (gone o)) = blocked
  on_report s i none = blocked

  -- `wg.Done()`
  pub on_done : State E → ℕ → Option (RoutinePc E) → Outcome E
  on_done s i (some (running (some e))) = blocked
  on_done s i (some (running none)) = moves (at s i (gone none))
  on_done s i (some (reported e)) = moves (at s i (gone (some e)))
  on_done s i (some (gone o)) = blocked
  on_done s i none = blocked

  pub all_gone : List (RoutinePc E) → Bool
  all_gone [] = true
  all_gone (gone o ∷ rs) = all_gone rs
  all_gone (running o ∷ rs) = false
  all_gone (reported e ∷ rs) = false

  -- `wg.Wait(); close(finished)`
  pub on_wait : State E → Bool → Bool → Outcome E
  on_wait s false true = moves (record s { finished_closed = true })
  on_wait s false false = blocked
  on_wait s true b = blocked

  -- `case <-finished:`
  pub on_finished : State E → MainPc E → Bool → Outcome E
  on_finished s selecting true = moves (record s { main = succeeded })
  on_finished s selecting false = blocked
  on_finished s succeeded b = blocked
  on_finished s (failed e) b = blocked

  -- `case err := <-errChannel:`
  pub on_error : State E → MainPc E → Outcome E
  on_error s selecting = elim (try_receive s.err_channel) [
    | value e c ↦ moves (record s { err_channel = c; main = failed e })
    | drained ↦ blocked
    | empty ↦ blocked
  ]
  on_error s succeeded = blocked
  on_error s (failed e) = blocked

pub data Action : Type 0 where
  report : ℕ → Action
  finish : ℕ → Action
  await_all : Action
  select_finished : Action
  select_error : Action

module _ {E : Type 0} where
  pub step : State E → Action → Outcome E
  unfolding on_report on_done all_gone on_wait on_finished on_error
  step s (report i) = on_report s i (get_elem? s.routines i)
  step s (finish i) = on_done s i (get_elem? s.routines i)
  step s await_all = on_wait s s.finished_closed (all_gone s.routines)
  step s select_finished = on_finished s s.main s.finished_closed
  step s select_error = on_error s s.main

  -- The states of a call with some goroutines.
  pub data Reach (rs : List (RoutinePc E)) : State E → Type 0 where
    start : {s : State E} → s ≡ new rs → Reach rs s
    later : {s s' : State E} → Reach rs s → (a : Action) → step s a ≡ moves s' → Reach rs s'
