-- ===== src/ParallelDigest.antt =====
-- concurrency/parallelism.go: `MD5All` with the goroutines of `sumFiles`, one for each file. The
-- walk's visits, `ioutil.ReadFile` and `md5.Sum` are parameters as in BoundedDigest, whose visits and
-- results these are too.
pub mod Invariant
pub mod Tally
pub mod Completeness
pub mod Progress
pub mod Ending
mod Examples
use awesome_patterns.Base.{
  ℕ, ◌≡◌, Bool, true, false, List, [], ◌∷◌, ◌++◌, Option, none, some, if◌then◌else◌, ◌==◌,
  get_elem?, set,
}
use awesome_patterns.BoundedDigest.{Error, Visit, failed, other, file, Result}

-- The goroutine of `sumFiles`: in the walk with the visits left, behind the start of a goroutine,
-- at the end of the walk, before the send of its result, or ended.
pub data WalkPc : Type 0 where
  walking : List Visit → WalkPc
  checking : List Visit → WalkPc
  walked : Error → WalkPc
  reporting : Error → WalkPc
  ended : WalkPc

-- The goroutine of a file: at its select, before `wg.Done()`, or gone.
pub data SummerPc : Type 0 where
  holding : ℕ → SummerPc
  finished : SummerPc
  gone : SummerPc

-- The goroutine that closes `c`: not started, in `wg.Wait()`, or ended.
pub data CloserPc : Type 0 where
  not_started : CloserPc
  waiting : CloserPc
  closed : CloserPc

-- `MD5All`: in its loop, at the receive of the walk's result, or returned with an error.
pub data MainPc : Type 0 where
  collecting : MainPc
  awaiting : MainPc
  returned : Error → MainPc

-- `c` is closed where the closer has ended; `errc` has room for one value; `sums` is the map `m`.
pub record State (S : Type 0) : Type 0 where
  pub walk : WalkPc
  pub errc : Option Error
  pub summers : List SummerPc
  pub closer : CloserPc
  pub done_closed : Bool
  pub main : MainPc
  pub sums : ℕ → Option S

pub data Event : Type 0 where
  silent : Event
  collected : ℕ → Event

pub data Outcome (S : Type 0) : Type 0 where
  blocked : Outcome S
  panics : Outcome S
  moves : State S → Event → Outcome S

pub is_closed : CloserPc → Bool
is_closed closed = true
is_closed _ = false

pub all_gone : List SummerPc → Bool
all_gone [] = true
all_gone (gone ∷ ds) = all_gone ds
all_gone (_ ∷ ds) = false

module _ {S : Type 0} where
  pub new : List Visit → State S
  new visits = record {
    walk = walking visits;
    errc = none;
    summers = [];
    closer = not_started;
    done_closed = false;
    main = collecting;
    sums = λ p. none;
  }

  -- The walk's function, and the end of the walk: a file starts a goroutine, and then the function
  -- looks whether `done` is closed.
  pub on_visit : State S → WalkPc → Outcome S
  on_visit s (walking []) = moves (record s { walk = walked none }) silent
  on_visit s (walking (failed e ∷ vs)) = moves (record s { walk = walked (some e) }) silent
  on_visit s (walking (other ∷ vs)) = moves (record s { walk = walking vs }) silent
  on_visit s (walking (file p ∷ vs)) =
      moves (record s { walk = checking vs; summers = s.summers ++ holding p ∷ [] }) silent
  on_visit s (checking vs) =
      if s.done_closed
      then moves (record s { walk = walked (some "walk canceled") }) silent
      else moves (record s { walk = walking vs }) silent
  on_visit s _ = blocked

  -- The start of the closer, and `errc <- err`.
  pub on_walk_end : State S → WalkPc → Option Error → Outcome S
  on_walk_end s (walked e) o = moves (record s { walk = reporting e; closer = waiting }) silent
  on_walk_end s (reporting e) none = moves (record s { walk = ended; errc = some e }) silent
  on_walk_end s (reporting e) (some x) = blocked
  on_walk_end s _ o = blocked

  -- `case <-done:`
  pub on_cancel : State S → ℕ → Option SummerPc → Outcome S
  on_cancel s j (some (holding p)) =
      if s.done_closed
      then moves (record s { summers = set s.summers j finished }) silent
      else blocked
  on_cancel s j _ = blocked

  -- `wg.Done()`
  pub on_count : State S → ℕ → Option SummerPc → Outcome S
  on_count s j (some finished) = moves (record s { summers = set s.summers j gone }) silent
  on_count s j _ = blocked

  -- `wg.Wait()` and `close(c)`
  pub on_close : State S → CloserPc → Outcome S
  unfolding all_gone
  on_close s waiting =
      if all_gone s.summers then moves (record s { closer = closed }) silent else blocked
  on_close s _ = blocked

  -- The end of the loop of `MD5All`, and its receive of the walk's result; a return of `MD5All` and
  -- its deferred `close(done)` are one step.
  pub on_main : State S → MainPc → Option Error → Outcome S
  unfolding is_closed
  on_main s collecting _ =
      if is_closed s.closer then moves (record s { main = awaiting }) silent else blocked
  on_main s awaiting (some e) =
      moves (record s { errc = none; main = returned e; done_closed = true }) silent
  on_main s awaiting none = blocked
  on_main s (returned e) _ = blocked

  -- `if r.err != nil { return nil, r.err }; m[r.path] = r.sum`
  pub on_result : State S → Result S → Error → Outcome S
  on_result s r (some e) = moves (record s { main = returned (some e); done_closed = true }) silent
  on_result s r none =
      moves (record s { sums = λ x. if r.path == x then some r.sum else s.sums x })
        (collected r.path)

  module _ {B : Type 0} (read_file : ℕ → B × Error) (md5_sum : B → S) where
    pub sum_file : ℕ → Result S
    sum_file p = record { path = p; sum = md5_sum (read_file p).0; err = (read_file p).1 }

    -- `case c <- result{…}` meets the receive of `MD5All`.
    pub on_deliver : State S → ℕ → Option SummerPc → MainPc → Outcome S
    unfolding on_result sum_file is_closed
    on_deliver s j (some (holding p)) collecting =
        if is_closed s.closer
        then panics
        else on_result (record s { summers = set s.summers j finished }) (sum_file p)
            (sum_file p).err
    on_deliver s j (some (holding p)) _ = if is_closed s.closer then panics else blocked
    on_deliver s j _ _ = blocked

pub data Action : Type 0 where
  visit : Action
  end_walk : Action
  deliver : ℕ → Action
  cancel : ℕ → Action
  count_down : ℕ → Action
  close_results : Action
  continue_main : Action

module _ {S B : Type 0} (read_file : ℕ → B × Error) (md5_sum : B → S) where
  pub step : State S → Action → Outcome S
  unfolding on_visit on_walk_end on_deliver on_cancel on_count on_close on_main
  step s visit = on_visit s s.walk
  step s end_walk = on_walk_end s s.walk s.errc
  step s (deliver j) = on_deliver read_file md5_sum s j (get_elem? s.summers j) s.main
  step s (cancel j) = on_cancel s j (get_elem? s.summers j)
  step s (count_down j) = on_count s j (get_elem? s.summers j)
  step s close_results = on_close s s.closer
  step s continue_main = on_main s s.main s.errc

  -- The states of a call, with what it has shown, the latest event first.
  pub data Reach (visits : List Visit) : State S → List Event → Type 0 where
    start : {s : State S} → s ≡ new visits → Reach visits s []
    later :
        {s s' : State S} {es : List Event} {e : Event}
        → Reach visits s es
        → (a : Action) → step s a ≡ moves s' e
        → Reach visits s' (e ∷ es)
