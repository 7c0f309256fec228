-- ===== src/StatusCheck.antt =====
-- concurrency/iterator/iterator_error_handling/main.go: `checkStatus` of `v2`, a goroutine for each URL
-- with an unbuffered channel of results, and the loop over them that stops at the first error. What
-- `http.Get` returns is a parameter.
pub mod Responses
pub mod Stranding
mod Examples
use awesome_patterns.Base.{
  ℕ, zero, suc, ◌≡◌, Bool, true, false, List, [], ◌∷◌, ◌++◌, Option, none, some, get_elem?, set,
  map, if◌then◌else◌,
}
use awesome_patterns.Gather.{Evaluated, result, failed}

-- The goroutine of a URL: before its select with what `http.Get` will return, at its send, or ended.
pub data FetchPc (R E : Type 0) : Type 0 where
  starting : Evaluated R E → FetchPc R E
  sending : Evaluated R E → FetchPc R E
  gone : FetchPc R E

-- The loop: running, before `done <- true` with the error, at its end, or left by `break`. `done` is
-- closed behind the last two.
pub data MainPc (E : Type 0) : Type 0 where
  ranging : MainPc E
  stopping : E → MainPc E
  over : MainPc E
  left : E → MainPc E

pub record State (R E : Type 0) : Type 0 where
  pub fetches : List (FetchPc R E)
  pub results_closed : Bool
  pub signalled : Bool
  pub main : MainPc E
  pub responses : List R

pub data Outcome (R E : Type 0) : Type 0 where
  blocked : Outcome R E
  moves : State R E → Outcome R E

pub data Action : Type 0 where
  begin : ℕ → Action
  deliver : ℕ → Action
  close_results : Action
  continue_main : Action

-- Whether `done` is closed.
pub is_done : {E : Type 0} → MainPc E → Bool
is_done ranging = false
is_done (stopping e) = false
is_done over = true
is_done (left e) = true

module _ {R E : Type 0} where
  pub new : List (Evaluated R E) → State R E
  new answers = record {
    fetches = map starting answers;
    results_closed = false;
    signalled = false;
    main = ranging;
    responses = [];
  }

  abbrev pub at : State R E → ℕ → FetchPc R E → State R E
  at s i p = record s { fetches = set s.fetches i p }

  -- `select { case <-done: return; default: ... }`; a value in `done` is taken.
  pub on_begin : State R E → ℕ → Option (FetchPc R E) → Bool → Bool → Outcome R E
  on_begin s i (some (starting v)) true d = moves (record (at s i gone) { signalled = false })
  on_begin s i (some (starting v)) false true = moves (at s i gone)
  on_begin s i (some (starting v)) false false = moves (at s i (sending v))
  on_begin s i (some (sending v)) b d = blocked
  on_begin s i (some gone) b d = blocked
  on_begin s i none b d = blocked

  -- `results <- Result{...}` with the receive of the loop and its test.
  pub on_deliver : State R E → ℕ → Option (FetchPc R E) → MainPc E → Outcome R E
  on_deliver s i (some (sending (result r))) ranging =
      moves (record (at s i gone) { responses = s.responses ++ r ∷ [] })
  on_deliver s i (some (sending (failed e))) ranging =
      moves (record (at s i gone) { main = stopping e })
  on_deliver s i (some (sending v)) (stopping e) = blocked
  on_deliver s i (some (sending v)) over = blocked
  on_deliver s i (some (sending v)) (left e) = blocked
  on_deliver s i (some (starting v)) m = blocked
  on_deliver s i (some gone) m = blocked
  on_deliver s i none m = blocked

  pub all_gone : List (FetchPc R E) → Bool
  all_gone [] = true
  all_gone (gone ∷ ps) = all_gone ps
  all_gone (starting v ∷ ps) = false
  all_gone (sending v ∷ ps) = false

  -- `wg.Wait()` and `close(results)`
  pub on_wait : State R E → Bool → Bool → Outcome R E
  on_wait s false true = moves (record s { results_closed = true })
  on_wait s false false = blocked
  on_wait s true b = blocked

  -- The end of the loop, or `done <- true`, which has room, and `break`.
  pub on_main : State R E → MainPc E → Bool → Outcome R E
  on_main s ranging true = moves (record s { main = over })
  on_main s ranging false = blocked
  on_main s (stopping e) b = moves (record s { main = left e; signalled = true })
  on_main s over b = blocked
  on_main s (left e) b = blocked

  pub step : State R E → Action → Outcome R E
  unfolding is_done on_begin on_deliver all_gone on_wait on_main
  step s (begin i) = on_begin s i (get_elem? s.fetches i) s.signalled (is_done s.main)
  step s (deliver i) = on_deliver s i (get_elem? s.fetches i) s.main
  step s close_results = on_wait s s.results_closed (all_gone s.fetches)
  step s continue_main = on_main s s.main s.results_closed

  -- The states of `v2` where `http.Get` returns so for the URLs.
  pub data Reach (answers : List (Evaluated R E)) : State R E → Type 0 where
    start : {s : State R E} → s ≡ new answers → Reach answers s
    later :
        {s s' : State R E} → Reach answers s → (a : Action) → step s a ≡ moves s' → Reach answers s'
