-- ===== src/FanInOut.antt =====
-- messaging/fan_in_out/main.go: a generator, some goroutines that square what they take of it, and
-- `merge` over their channels. All channels are unbuffered: a send and its receive are one step. An
-- int is its 64-bit word.
pub mod Invariant
pub mod Preservation
pub mod Merged
pub mod Progress
pub mod Ending
mod Examples
use awesome_patterns.Base.{
  ℕ, zero, suc, ◌≡◌, ◌*◌, ◌%◌, ◌^◌, Bool, true, false, List, [], ◌∷◌, ◌++◌, Option, none, some,
  get_elem?, set, replicate,
}

-- `gen`: at the send of the first number left, or ended with its channel closed.
pub data GenPc : Type 0 where
  emitting : List ℕ → GenPc
  emitted : GenPc

-- `sq`: at its receive, at its send, or ended with its channel closed.
pub data SqPc : Type 0 where
  taking : SqPc
  giving : ℕ → SqPc
  shut : SqPc

-- `output` of `merge`: at its receive, at its send, or behind `wg.Done()`.
pub data OutputPc : Type 0 where
  copying : OutputPc
  holding : ℕ → OutputPc
  gone : OutputPc

-- A `sq` with the `output` that reads its channel.
pub record Line : Type 0 where
  pub sq : SqPc
  pub output : OutputPc

pub data MainPc : Type 0 where
  ranging : MainPc
  over : MainPc

pub record State : Type 0 where
  pub gen : GenPc
  pub lines : List Line
  pub closed : Bool
  pub main : MainPc
  pub out : List ℕ

pub data Outcome : Type 0 where
  blocked : Outcome
  panics : Outcome
  moves : State → Outcome

-- `n * n`
pub square : ℕ → ℕ
square n = n * n % 2 ^ 64

abbrev pub fresh_line : Line
fresh_line = record { sq = taking; output = copying }

pub new : ℕ → List ℕ → State
new k nums = record {
  gen = emitting nums;
  lines = replicate k fresh_line;
  closed = false;
  main = ranging;
  out = [];
}

abbrev pub at : State → ℕ → Line → State
at s i l = record s { lines = set s.lines i l }

-- `out <- n` of `gen`, with the receive of a `sq`.
pub on_emit : State → ℕ → Line → GenPc → SqPc → Outcome
unfolding square
on_emit s i l (emitting (n ∷ ns)) taking =
    moves (record (at s i (record l { sq = giving (square n) })) { gen = emitting ns })
on_emit s i l (emitting (n ∷ ns)) (giving m) = blocked
on_emit s i l (emitting (n ∷ ns)) shut = blocked
on_emit s i l (emitting []) p = blocked
on_emit s i l emitted p = blocked

pub on_gen_end : State → GenPc → Outcome
on_gen_end s (emitting []) = moves (record s { gen = emitted })
on_gen_end s (emitting (n ∷ ns)) = blocked
on_gen_end s emitted = blocked

-- `out <- n * n` of `sq`, with the receive of its `output`.
pub on_give : State → ℕ → Line → SqPc → OutputPc → Outcome
on_give s i l (giving n) copying = moves (at s i (record { sq = taking; output = holding n }))
on_give s i l (giving n) (holding m) = blocked
on_give s i l (giving n) gone = blocked
on_give s i l taking p = blocked
on_give s i l shut p = blocked

pub on_sq_end : State → ℕ → Line → SqPc → GenPc → Outcome
on_sq_end s i l taking emitted = moves (at s i (record l { sq = shut }))
on_sq_end s i l taking (emitting ns) = blocked
on_sq_end s i l (giving n) g = blocked
on_sq_end s i l shut g = blocked

-- `out <- n` of `output`, with the receive of the loop.
pub on_output : State → ℕ → Line → OutputPc → Bool → MainPc → Outcome
on_output s i l (holding n) true m = panics
on_output s i l (holding n) false ranging =
    moves (record (at s i (record l { output = copying })) { out = s.out ++ n ∷ [] })
on_output s i l (holding n) false over = blocked
on_output s i l copying b m = blocked
on_output s i l gone b m = blocked

-- The end of an `output`: `wg.Done()`
pub on_output_end : State → ℕ → Line → OutputPc → SqPc → Outcome
on_output_end s i l copying shut = moves (at s i (record l { output = gone }))
on_output_end s i l copying taking = blocked
on_output_end s i l copying (giving n) = blocked
on_output_end s i l (holding n) p = blocked
on_output_end s i l gone p = blocked

pub all_gone : List Line → Bool
all_gone [] = true
all_gone (l ∷ ls) = elim l.output [ copying ↦ false | holding n ↦ false | gone ↦ all_gone ls ]

-- `wg.Wait(); close(out)`
pub on_wait : State → Bool → Bool → Outcome
on_wait s false true = moves (record s { closed = true })
on_wait s false false = blocked
on_wait s true b = blocked

pub on_end : State → MainPc → Bool → Outcome
on_end s ranging true = moves (record s { main = over })
on_end s ranging false = blocked
on_end s over b = blocked

pub of_line : (Line → Outcome) → Option Line → Outcome
of_line f none = blocked
of_line f (some l) = f l

pub data Action : Type 0 where
  emit : ℕ → Action
  end_gen : Action
  give : ℕ → Action
  end_sq : ℕ → Action
  put : ℕ → Action
  end_output : ℕ → Action
  close_out : Action
  end_loop : Action

pub step : State → Action → Outcome
unfolding on_emit on_gen_end on_give on_sq_end on_output on_output_end all_gone on_wait on_end
    of_line
step s (emit i) = of_line (λ l. on_emit s i l s.gen l.sq) (get_elem? s.lines i)
step s end_gen = on_gen_end s s.gen
step s (give i) = of_line (λ l. on_give s i l l.sq l.output) (get_elem? s.lines i)
step s (end_sq i) = of_line (λ l. on_sq_end s i l l.sq s.gen) (get_elem? s.lines i)
step s (put i) = of_line (λ l. on_output s i l l.output s.closed s.main) (get_elem? s.lines i)
step s (end_output i) = of_line (λ l. on_output_end s i l l.output l.sq) (get_elem? s.lines i)
step s close_out = on_wait s s.closed (all_gone s.lines)
step s end_loop = on_end s s.main s.closed

-- The states of the program with a number of `sq` goroutines on some numbers.
pub data Reach (k : ℕ) (nums : List ℕ) : State → Type 0 where
  start : {s : State} → s ≡ new k nums → Reach k nums s
  later : {s s' : State} → Reach k nums s → (a : Action) → step s a ≡ moves s' → Reach k nums s'
