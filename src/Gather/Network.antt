-- ===== src/Gather/Network.antt =====
-- `DivideAndConquer` with its goroutines: for each evaluator an inner one that evaluates and an outer
-- one that selects. What an evaluator returns is a parameter, and so is the error of its timeout;
-- a timer may fire at any time.
pub mod Invariant
pub mod Tasks
pub mod Preservation
pub mod Outcomes
pub mod Progress
pub mod Ending
mod Examples
use awesome_patterns.Base.{
  ℕ, zero, suc, ◌≡◌, List, [], ◌∷◌, ◌++◌, Option, none, some, get_elem?, set, replicate,
}
use awesome_patterns.Channel.{
  Chan, queued, full, send_panics, value, drained, empty, make, try_send, try_receive,
}
use awesome_patterns.Gather.{Evaluated, result, failed, Channels, sent, stuck, send}

-- The inner goroutine: in `Evaluate`, or ended.
pub data InnerPc : Type 0 where
  evaluating : InnerPc
  stored : InnerPc

-- The outer goroutine: at its select, at its send with what it received, or ended.
pub data OuterPc (R E : Type 0) : Type 0 where
  selecting : OuterPc R E
  sending : Evaluated R E → OuterPc R E
  gone : Evaluated R E → OuterPc R E

-- The goroutines of an evaluator, with their two channels.
pub record Task (R E : Type 0) : Type 0 where
  pub inner : InnerPc
  pub ch : Chan R
  pub ech : Chan E
  pub outer : OuterPc R E

-- The gathering loop, with the rounds left.
pub data MainPc : Type 0 where
  gathering : (rounds : ℕ) → MainPc
  returned : MainPc

pub record State (R E : Type 0) : Type 0 where
  pub tasks : List (Task R E)
  pub channels : Channels R E
  pub main : MainPc
  pub out : List R
  pub errs : List E

pub data Outcome (R E : Type 0) : Type 0 where
  blocked : Outcome R E
  panics : Outcome R E
  moves : State R E → Outcome R E

pub data Action : Type 0 where
  evaluate_task : ℕ → Action
  select_result : ℕ → Action
  select_error : ℕ → Action
  time_out : ℕ → Action
  deliver : ℕ → Action
  gather_result : Action
  gather_error : Action
  end_gather : Action

module _ {R E : Type 0} where
  unfoldable pub fresh_task : Task R E
  fresh_task = record { inner = evaluating; ch = make 1; ech = make 1; outer = selecting }

  unfoldable pub new : ℕ → State R E
  unfolding fresh_task
  new n = record {
    tasks = replicate n fresh_task;
    channels = record { gather = make n; errors = make n };
    main = gathering n;
    out = [];
    errs = [];
  }

  abbrev pub at : State R E → ℕ → Task R E → State R E
  at s i t = record s { tasks = set s.tasks i t }

  -- `if err != nil { ech <- err } else { ch <- result }`
  unfoldable pub store : State R E → ℕ → Task R E → Evaluated R E → Outcome R E
  store s i t (result r) = elim (try_send t.ch r) [
    | queued c ↦ moves (at s i (record t { inner = stored; ch = c }))
    | full ↦ blocked
    | send_panics ↦ panics
  ]
  store s i t (failed e) = elim (try_send t.ech e) [
    | queued c ↦ moves (at s i (record t { inner = stored; ech = c }))
    | full ↦ blocked
    | send_panics ↦ panics
  ]

  unfoldable pub on_evaluate : State R E → ℕ → Evaluated R E → Task R E → InnerPc → Outcome R E
  unfolding store
  on_evaluate s i v t evaluating = store s i t v
  on_evaluate s i v t stored = blocked

  -- `case r := <-ch:`
  unfoldable pub on_select : State R E → ℕ → Task R E → OuterPc R E → Outcome R E
  on_select s i t selecting = elim (try_receive t.ch) [
    | value r c ↦ moves (at s i (record t { ch = c; outer = sending (result r) }))
    | drained ↦ blocked
    | empty ↦ blocked
  ]
  on_select s i t _ = blocked

  -- `case err := <-ech:`
  pub on_select_error : State R E → ℕ → Task R E → OuterPc R E → Outcome R E
  on_select_error s i t selecting = elim (try_receive t.ech) [
    | value e c ↦ moves (at s i (record t { ech = c; outer = sending (failed e) }))
    | drained ↦ blocked
    | empty ↦ blocked
  ]
  on_select_error s i t _ = blocked

  -- `case <-time.After(timeout):`
  unfoldable pub on_timeout : State R E → ℕ → E → Task R E → OuterPc R E → Outcome R E
  on_timeout s i e t selecting = moves (at s i (record t { outer = sending (failed e) }))
  on_timeout s i e t _ = blocked

  -- `gather <- r`, `errors <- err`
  unfoldable pub on_deliver : State R E → ℕ → Task R E → OuterPc R E → Outcome R E
  on_deliver s i t (sending v) = elim (send s.channels v) [
    | sent c ↦ moves (record (at s i (record t { outer = gone v })) { channels = c })
    | stuck ↦ blocked
  ]
  on_deliver s i t _ = blocked

  -- `case r := <-gather:`
  unfoldable pub on_gather : State R E → MainPc → Outcome R E
  on_gather s (gathering (suc k)) = elim (try_receive s.channels.gather) [
    | value r c ↦ moves (record s {
      channels = record s.channels { gather = c };
      main = gathering k;
      out = s.out ++ r ∷ [];
    })
    | drained ↦ blocked
    | empty ↦ blocked
  ]
  on_gather s _ = blocked

  -- `case e := <-errors:`
  unfoldable pub on_gather_error : State R E → MainPc → Outcome R E
  on_gather_error s (gathering (suc k)) = elim (try_receive s.channels.errors) [
    | value e c ↦ moves (record s {
      channels = record s.channels { errors = c };
      main = gathering k;
      errs = s.errs ++ e ∷ [];
    })
    | drained ↦ blocked
    | empty ↦ blocked
  ]
  on_gather_error s _ = blocked

  unfoldable pub on_return : State R E → MainPc → Outcome R E
  on_return s (gathering zero) = moves (record s { main = returned })
  on_return s _ = blocked

  -- A step of a task that there is.
  unfoldable pub of_task : (Task R E → Outcome R E) → Option (Task R E) → Outcome R E
  of_task f none = blocked
  of_task f (some t) = f t

  module _ (evaluate : ℕ → Evaluated R E) (timeout : ℕ → E) where
    unfoldable pub step : State R E → Action → Outcome R E
    unfolding on_evaluate on_select on_select_error on_timeout on_deliver on_gather on_gather_error
        on_return of_task
    step s (evaluate_task i) =
        of_task (λ t. on_evaluate s i (evaluate i) t t.inner) (get_elem? s.tasks i)
    step s (select_result i) = of_task (λ t. on_select s i t t.outer) (get_elem? s.tasks i)
    step s (select_error i) = of_task (λ t. on_select_error s i t t.outer) (get_elem? s.tasks i)
    step s (time_out i) = of_task (λ t. on_timeout s i (timeout i) t t.outer) (get_elem? s.tasks i)
    step s (deliver i) = of_task (λ t. on_deliver s i t t.outer) (get_elem? s.tasks i)
    step s gather_result = on_gather s s.main
    step s gather_error = on_gather_error s s.main
    step s end_gather = on_return s s.main

    -- The states of a call with a number of evaluators.
    pub data Reach (n : ℕ) : State R E → Type 0 where
      start : {s : State R E} → s ≡ new n → Reach n s
      later : {s s' : State R E} → Reach n s → (a : Action) → step s a ≡ moves s' → Reach n s'
