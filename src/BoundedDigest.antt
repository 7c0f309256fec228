-- ===== src/BoundedDigest.antt =====
-- concurrency/bounded/bounded_parallelism.go: `MD5All` with the goroutine of `walkFiles` and its
-- digesters. `filepath.Walk` calls its function for each visit in turn, stops at the first error
-- that the function returns, and returns it; the visits are a parameter, and so are
-- `ioutil.ReadFile`, on files that no one changes during the call, and `md5.Sum`. Paths are numbers.
pub mod Stages
pub mod Invariant
pub mod Tally
pub mod Completeness
pub mod Progress
pub mod Ending
pub mod Blame
mod Examples
use awesome_patterns.Base.{
  ℕ, ◌≡◌, Bool, true, false, String, List, [], ◌∷◌, Option, none, some, if◌then◌else◌, ◌==◌,
  get_elem?, set, replicate,
}

abbrev pub Error : Type 0
Error = Option String

-- A call of the walk's function: with an error, for what is not a regular file, or for a file.
pub data Visit : Type 0 where
  failed : String → Visit
  other : Visit
  file : ℕ → Visit

-- The goroutine of `walkFiles`: in the walk with the visits left, at the select of a visit, before
-- the send of the walk's result, before `close(paths)`, or ended.
pub data WalkPc : Type 0 where
  walking : List Visit → WalkPc
  offering : ℕ → List Visit → WalkPc
  reporting : Error → WalkPc
  closing : WalkPc
  ended : WalkPc

-- A digester: at its receive, at its select with the path of its result, before `wg.Done()`, or gone.
pub data DigesterPc : Type 0 where
  receiving : DigesterPc
  holding : ℕ → DigesterPc
  finished : DigesterPc
  gone : DigesterPc

-- `MD5All`: in its loop, at the receive of the walk's result, or returned with an error.
pub data MainPc : Type 0 where
  collecting : MainPc
  awaiting : MainPc
  returned : Error → MainPc

pub record Result (S : Type 0) : Type 0 where
  pub path : ℕ
  pub sum : S
  pub err : Error

-- `errc` has room for one value; `sums` is the map `m`.
pub record State (S : Type 0) : Type 0 where
  pub walk : WalkPc
  pub errc : Option Error
  pub paths_closed : Bool
  pub digesters : List DigesterPc
  pub c_closed : Bool
  pub done_closed : Bool
  pub main : MainPc
  pub sums : ℕ → Option S

pub data Event : Type 0 where
  silent : Event
  collected : ℕ → Event

pub data Outcome (S : Type 0) : Type 0 where
  blocked : Outcome S
  panics : Outcome S
  moves : State S → Event → Outcome S

abbrev pub num_digesters : ℕ
num_digesters = 20

pub all_gone : List DigesterPc → Bool
all_gone [] = true
all_gone (gone ∷ ds) = all_gone ds
all_gone (_ ∷ ds) = false

module _ {S : Type 0} where
  pub new : List Visit → State S
  new visits = record {
    walk = walking visits;
    errc = none;
    paths_closed = false;
    digesters = replicate num_digesters receiving;
    c_closed = false;
    done_closed = false;
    main = collecting;
    sums = λ p. none;
  }

  -- The walk's function, up to its select, and the end of the walk.
  pub on_visit : State S → WalkPc → Outcome S
  on_visit s (walking []) = moves (record s { walk = reporting none }) silent
  on_visit s (walking (failed e ∷ vs)) = moves (record s { walk = reporting (some e) }) silent
  on_visit s (walking (other ∷ vs)) = moves (record s { walk = walking vs }) silent
  on_visit s (walking (file p ∷ vs)) = moves (record s { walk = offering p vs }) silent
  on_visit s _ = blocked

  -- `case paths <- path` meets the receive of a digester.
  pub on_take : State S → ℕ → WalkPc → Option DigesterPc → Outcome S
  on_take s j (offering p vs) (some receiving) =
      moves (record s { walk = walking vs; digesters = set s.digesters j (holding p) }) silent
  on_take s j _ _ = blocked

  -- `case <-done: return errors.New("walk canceled")`
  pub on_walk_cancel : State S → WalkPc → Outcome S
  on_walk_cancel s (offering p vs) =
      if s.done_closed
      then moves (record s { walk = reporting (some "walk canceled") }) silent
      else blocked
  on_walk_cancel s _ = blocked

  -- `errc <- …`, and the deferred `close(paths)`
  pub on_walk_end : State S → WalkPc → Option Error → Outcome S
  on_walk_end s (reporting e) none = moves (record s { walk = closing; errc = some e }) silent
  on_walk_end s (reporting e) (some _) = blocked
  on_walk_end s closing _ =
      if s.paths_closed
      then panics
      else moves (record s { walk = ended; paths_closed = true }) silent
  on_walk_end s _ _ = blocked

  -- The end of `range paths`
  pub on_finish : State S → ℕ → Option DigesterPc → Outcome S
  on_finish s j (some receiving) =
      if s.paths_closed
      then moves (record s { digesters = set s.digesters j finished }) silent
      else blocked
  on_finish s j _ = blocked

  -- `case <-done: return` of a digester
  pub on_cancel : State S → ℕ → Option DigesterPc → Outcome S
  on_cancel s j (some (holding p)) =
      if s.done_closed
      then moves (record s { digesters = set s.digesters j finished }) silent
      else blocked
  on_cancel s j _ = blocked

  -- `wg.Done()`
  pub on_count : State S → ℕ → Option DigesterPc → Outcome S
  on_count s j (some finished) = moves (record s { digesters = set s.digesters j gone }) silent
  on_count s j _ = blocked

  -- `wg.Wait()` and `close(c)`; the goroutine has ended when `c` is closed.
  pub on_close : State S → Outcome S
  unfolding all_gone
  on_close s =
      if s.c_closed
      then blocked
      else (if all_gone s.digesters then moves (record s { c_closed = true }) silent else blocked)

  -- The end of the loop of `MD5All`, and its receive of the walk's result; a return of `MD5All` and
  -- its deferred `close(done)` are one step.
  pub on_main : State S → MainPc → Option Error → Outcome S
  on_main s collecting _ =
      if s.c_closed then moves (record s { main = awaiting }) silent else blocked
  on_main s awaiting (some e) =
      moves (record s { errc = none; main = returned e; done_closed = true }) silent
  on_main s awaiting none = blocked
  on_main s (returned e) _ = blocked

  -- `if r.err != nil { return nil, r.err }; m[r.path] = r.sum`
  pub on_result : State S → Result S → Error → Outcome S
  on_result s r (some e) = moves (record s { main = returned (some e); done_closed = true }) silent
  on_result s r none =
      moves (record s { sums = λ x. if r.path == x then some r.sum else s.sums x })
        (collected r.path)

  -- A walk's visits, with what the reading of a file gives and the sum of what was read.
  module _ {B : Type 0} (read_file : ℕ → B × Error) (md5_sum : B → S) where
    pub digest : ℕ → Result S
    digest p = record { path = p; sum = md5_sum (read_file p).0; err = (read_file p).1 }

    -- `case c <- result{…}` meets the receive of `MD5All`.
    pub on_deliver : State S → ℕ → Option DigesterPc → MainPc → Outcome S
    unfolding on_result digest
    on_deliver s j (some (holding p)) collecting =
        if s.c_closed
        then panics
        else on_result (record s { digesters = set s.digesters j receiving }) (digest p)
            (digest p).err
    on_deliver s j (some (holding p)) _ = if s.c_closed then panics else blocked
    on_deliver s j _ _ = blocked

pub data Action : Type 0 where
  visit : Action
  take : ℕ → Action
  cancel_walk : Action
  end_walk : Action
  finish : ℕ → Action
  deliver : ℕ → Action
  cancel : ℕ → Action
  count_down : ℕ → Action
  close_results : Action
  continue_main : Action

module _ {S B : Type 0} (read_file : ℕ → B × Error) (md5_sum : B → S) where
  pub step : State S → Action → Outcome S
  unfolding on_visit on_take on_walk_cancel on_walk_end on_finish on_deliver on_cancel on_count
      on_close on_main
  step s visit = on_visit s s.walk
  step s (take j) = on_take s j s.walk (get_elem? s.digesters j)
  step s cancel_walk = on_walk_cancel s s.walk
  step s end_walk = on_walk_end s s.walk s.errc
  step s (finish j) = on_finish s j (get_elem? s.digesters j)
  step s (deliver j) = on_deliver read_file md5_sum s j (get_elem? s.digesters j) s.main
  step s (cancel j) = on_cancel s j (get_elem? s.digesters j)
  step s (count_down j) = on_count s j (get_elem? s.digesters j)
  step s close_results = on_close s
  step s continue_main = on_main s s.main s.errc

  -- The states of a call, with what it has shown, the latest event first.
  pub data Reach (visits : List Visit) : State S → List Event → Type 0 where
    start : {s : State S} → s ≡ new visits → Reach visits s []
    later :
        {s s' : State S} {es : List Event} {e : Event}
        → Reach visits s es
        → (a : Action) → step s a ≡ moves s' e
        → Reach visits s' (e ∷ es)
