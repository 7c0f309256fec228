-- ===== src/Requests.antt =====
-- concurrency/barrier/main.go: `barrier`, which asks a number of endpoints at once and waits for all
-- answers or for the first error. The answer of an endpoint, the body or an error of `makeRequest`, is
-- a parameter.
pub mod Answers
mod Examples
use awesome_patterns.Base.{
  ℕ, zero, suc, ◌≡◌, Bool, true, false, List, [], ◌∷◌, ◌++◌, Option, none, some, get_elem?, set,
  map, length,
}
use awesome_patterns.Channel.{
  Chan, queued, full, send_panics, value, drained, empty, make, try_send, try_receive,
}
use awesome_patterns.Gather.{Evaluated, result, failed}

-- A goroutine of `makeRequest`: before its send, or ended.
pub data RequestPc (R E : Type 0) : Type 0 where
  asking : Evaluated R E → RequestPc R E
  answered : RequestPc R E

-- The loop of `barrier` with the rounds left, or its return with the error, behind `close(in)`.
pub data MainPc (E : Type 0) : Type 0 where
  collecting : (rounds : ℕ) → MainPc E
  returned : Option E → MainPc E

pub record State (R E : Type 0) : Type 0 where
  pub requests : List (RequestPc R E)
  pub in_ch : Chan (Evaluated R E)
  pub main : MainPc E
  pub responses : List R

pub data Outcome (R E : Type 0) : Type 0 where
  blocked : Outcome R E
  panics : Outcome R E
  moves : State R E → Outcome R E

pub data Action : Type 0 where
  send : ℕ → Action
  receive : Action
  finish : Action

module _ {R E : Type 0} where
  pub new : List (Evaluated R E) → State R E
  new answers = record {
    requests = map asking answers;
    in_ch = make (length answers);
    main = collecting (length answers);
    responses = [];
  }

  -- `out <- res`
  pub on_send : State R E → ℕ → Option (RequestPc R E) → Outcome R E
  on_send s i (some (asking v)) = elim (try_send s.in_ch v) [
    | queued c ↦ moves (record s { requests = set s.requests i answered; in_ch = c })
    | full ↦ blocked
    | send_panics ↦ panics
  ]
  on_send s i (some answered) = blocked
  on_send s i none = blocked

  -- `if resp.Err != nil { ...; break }; responses[i] = resp`
  pub collected : State R E → ℕ → Chan (Evaluated R E) → Evaluated R E → State R E
  collected s k c (result r) = record s {
    in_ch = c;
    main = collecting k;
    responses = s.responses ++ r ∷ [];
  }
  collected s k c (failed e) = record s {
    in_ch = record c { closed = true };
    main = returned (some e);
  }

  -- `resp := <-in`
  pub on_receive : State R E → MainPc E → Outcome R E
  unfolding collected
  on_receive s (collecting (suc k)) = elim (try_receive s.in_ch) [
    | value v c ↦ moves (collected s k c v)
    | drained ↦ blocked
    | empty ↦ blocked
  ]
  on_receive s (collecting zero) = blocked
  on_receive s (returned o) = blocked

  pub on_finish : State R E → MainPc E → Outcome R E
  on_finish s (collecting zero) =
      moves (record s { in_ch = record s.in_ch { closed = true }; main = returned none })
  on_finish s (collecting (suc k)) = blocked
  on_finish s (returned o) = blocked

  pub step : State R E → Action → Outcome R E
  unfolding on_send on_receive on_finish
  step s (send i) = on_send s i (get_elem? s.requests i)
  step s receive = on_receive s s.main
  step s finish = on_finish s s.main

  -- The states of a call with the endpoints that answer so.
  pub data Reach (answers : List (Evaluated R E)) : State R E → Type 0 where
    start : {s : State R E} → s ≡ new answers → Reach answers s
    later :
        {s s' : State R E} → Reach answers s → (a : Action) → step s a ≡ moves s' → Reach answers s'
