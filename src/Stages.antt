-- ===== src/Stages.antt =====
-- concurrency/pipeline/pipeline_from_book/main.go: a generator and stages, each a goroutine with an
-- unbuffered channel to the next, a loop over what the last sends, and `done`. A send on an unbuffered
-- channel and its receive are one step. An int is its 64-bit word.
pub mod Order
pub mod Progress
pub mod Ending
mod Examples
use awesome_patterns.Base.{
  ℕ, zero, suc, ◌≡◌, ◌*◌, ◌%◌, ◌^◌, Bool, true, false, List, [], ◌∷◌, ◌++◌, Option, none, some,
  if◌then◌else◌,
}

-- A stage: at its receive, at the select with what it sends, or ended with its channel closed.
pub data StagePc (A : Type 0) : Type 0 where
  receiving : StagePc A
  sending : A → StagePc A
  ended : StagePc A

-- The goroutines from a channel up to the generator.
pub data Chain (A : Type 0) : Type 0 where
  generating : List A → Chain A
  generated : Chain A
  stage : (A → A) → StagePc A → Chain A → Chain A

-- The loop over the last channel: running, at its end, or left early. `done` is closed behind it.
pub data LoopPc : Type 0 where
  ranging : LoopPc
  drained : LoopPc
  left : LoopPc

pub record State (A : Type 0) : Type 0 where
  pub chain : Chain A
  pub out : List A
  pub loop : LoopPc

pub data Action : Type 0 where
  receive_at : ℕ → Action
  finish_at : ℕ → Action
  cancel_at : ℕ → Action
  consume : Action
  end_loop : Action
  leave_loop : Action

-- `i * multiplier`
pub multiply : ℕ → ℕ → ℕ
multiply multiplier i = i * multiplier % 2 ^ 64

-- What `add` sends for `i`.
pub add : ℕ → ℕ → ℕ
add additive i = i

module _ {A : Type 0} where
  -- The stages' calls, the last one first, on a generator.
  pub new : List (A → A) → List A → Chain A
  new [] integers = generating integers
  new (f ∷ fs) integers = stage f receiving (new fs integers)

  -- What a chain is ready to send on its channel, and what becomes of it by that.
  pub offer : Chain A → Option (A × Chain A)
  offer (generating []) = none
  offer (generating (x ∷ xs)) = some (x, generating xs)
  offer generated = none
  offer (stage f receiving up) = none
  offer (stage f (sending y) up) = some (y, stage f receiving up)
  offer (stage f ended up) = none

  -- Whether its channel is closed.
  pub has_ended : Chain A → Bool
  has_ended (generating xs) = false
  has_ended generated = true
  has_ended (stage f ended up) = true
  has_ended (stage f receiving up) = false
  has_ended (stage f (sending y) up) = false

  pub below : (A → A) → StagePc A → Option (Chain A) → Option (Chain A)
  below f pc none = none
  below f pc (some up) = some (stage f pc up)

  pub taken : (A → A) → Option (A × Chain A) → Option (Chain A)
  taken f none = none
  taken f (some (i, up)) = some (stage f (sending (f i)) up)

  -- `for i := range intStream`, where a value comes.
  pub receive : Chain A → ℕ → Option (Chain A)
  unfolding offer below taken
  receive (generating xs) n = none
  receive generated n = none
  receive (stage f pc up) (suc n) = below f pc (receive up n)
  receive (stage f receiving up) zero = taken f (offer up)
  receive (stage f (sending y) up) zero = none
  receive (stage f ended up) zero = none

  -- The end of a loop over a list or over a closed channel, and `defer close(...)`.
  pub finish : Chain A → ℕ → Option (Chain A)
  unfolding below has_ended
  finish (generating []) zero = some generated
  finish (generating []) (suc n) = none
  finish (generating (x ∷ xs)) n = none
  finish generated n = none
  finish (stage f pc up) (suc n) = below f pc (finish up n)
  finish (stage f receiving up) zero = if has_ended up then some (stage f ended up) else none
  finish (stage f (sending y) up) zero = none
  finish (stage f ended up) zero = none

  -- `case <-done: return`
  pub cancel : Chain A → ℕ → Option (Chain A)
  unfolding below
  cancel (generating []) n = none
  cancel (generating (x ∷ xs)) zero = some generated
  cancel (generating (x ∷ xs)) (suc n) = none
  cancel generated n = none
  cancel (stage f pc up) (suc n) = below f pc (cancel up n)
  cancel (stage f (sending y) up) zero = some (stage f ended up)
  cancel (stage f receiving up) zero = none
  cancel (stage f ended up) zero = none

  pub with_chain : State A → Option (Chain A) → Option (State A)
  with_chain s none = none
  with_chain s (some c) = some (record s { chain = c })

  pub on_cancel : State A → ℕ → LoopPc → Option (State A)
  unfolding with_chain cancel
  on_cancel s n ranging = none
  on_cancel s n drained = with_chain s (cancel s.chain n)
  on_cancel s n left = with_chain s (cancel s.chain n)

  pub on_consume : State A → LoopPc → Option (A × Chain A) → Option (State A)
  on_consume s ranging (some (v, c)) = some (record s { chain = c; out = s.out ++ v ∷ [] })
  on_consume s ranging none = none
  on_consume s drained o = none
  on_consume s left o = none

  pub on_end : State A → LoopPc → Bool → Option (State A)
  on_end s ranging true = some (record s { loop = drained })
  on_end s ranging false = none
  on_end s drained b = none
  on_end s left b = none

  pub on_leave : State A → LoopPc → Option (State A)
  on_leave s ranging = some (record s { loop = left })
  on_leave s drained = none
  on_leave s left = none

  -- The goroutine that acts is given by its distance from the loop.
  pub step : State A → Action → Option (State A)
  unfolding with_chain receive finish on_cancel on_consume offer on_end has_ended on_leave
  step s (receive_at n) = with_chain s (receive s.chain n)
  step s (finish_at n) = with_chain s (finish s.chain n)
  step s (cancel_at n) = on_cancel s n s.loop
  step s consume = on_consume s s.loop (offer s.chain)
  step s end_loop = on_end s s.loop (has_ended s.chain)
  step s leave_loop = on_leave s s.loop

  pub start_of : List (A → A) → List A → State A
  unfolding new
  start_of fs integers = record { chain = new fs integers; out = []; loop = ranging }

  -- The states of a pipeline of some stages on some integers.
  pub data Reach (fs : List (A → A)) (integers : List A) : State A → Type 0 where
    start : {s : State A} → s ≡ start_of fs integers → Reach fs integers s
    later :
        {s s' : State A}
        → Reach fs integers s
        → (a : Action) → step s a ≡ some s'
        → Reach fs integers s'
