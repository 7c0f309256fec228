-- ===== src/FeedReader/Sub.antt =====
-- concurrency/feedreader/main.go: `sub.loop`, the goroutine behind a `Subscription`. A step is one
-- pass through the `for`, or the end of the `Fetch` that runs beside it. The environment chooses the
-- case of the `select`, the times of the two reads of the clock and what `Fetch` returns.
pub mod Invariant
pub mod Delivery
pub mod Timing
pub mod Closing
mod Examples
use awesome_patterns.Base.{
  ℕ, ◌+◌, ◌-◌, ◌*◌, ◌^◌, ◌≡◌, Bool, true, false, ◌&&◌, List, [], ◌∷◌, ◌++◌, Option, none, some, ltb,
  leb, if◌then◌else◌, length,
}
use awesome_patterns.FeedReader.{Item, Error, FetchResult}
use awesome_patterns.FeedReader.Items.{Seen, unseen, Intake, collect}

-- `fetchDone`: nil, a channel whose `Fetch` still runs, or a channel with the result in its buffer.
pub data Fetching : Type 0 where
  idle : Fetching
  running : Fetching
  ready : FetchResult → Fetching

-- The local variables of `loop`, and whether it has returned, which it does with `updates` closed.
pub record Loop : Type 0 where
  pub fetch_done : Fetching
  pub pending : List Item
  pub next : ℕ
  pub err : Option Error
  pub seen : Seen
  pub returned : Bool

-- `now` at the head of the pass, and the time at which the `select` goes on.
pub record Times : Type 0 where
  pub now : ℕ
  pub at : ℕ

pub data Case : Type 0 where
  start_fetch : Case
  fetch_completes : FetchResult → Case
  take_result : Case
  close_request : Case
  send_update : Case

-- What a step shows: a batch taken in, a failure with its time, an item sent, the answer to `Close`.
pub data Label : Type 0 where
  silent : Label
  accepted : List Item → Label
  failed : Error → ℕ → Label
  delivered : Item → Label
  replied : Option Error → Label

abbrev pub max_pending : ℕ
max_pending = 10

-- `10 * time.Second`
abbrev pub retry_delay : ℕ
retry_delay = 10 * 10 ^ 9

-- The head of `Subscribe` and of `loop`: every variable has its zero value.
unfoldable pub initial : Loop
initial = record {
  fetch_done = idle;
  pending = [];
  next = 0;
  err = none;
  seen = unseen;
  returned = false;
}

abbrev is_idle : Fetching → Bool
is_idle idle = true
is_idle _ = false

-- `if now := time.Now(); next.After(now) { fetchDelay = next.Sub(now) }`
unfoldable pub fetch_delay : ℕ → ℕ → ℕ
fetch_delay next now = if ltb now next then next - now else 0

-- `startFetch` is not nil, and its timer has fired.
pub can_start : Loop → Times → Bool
unfolding fetch_delay
can_start s t =
    is_idle s.fetch_done
    && (ltb (length s.pending) max_pending && leb (t.now + fetch_delay s.next t.now) t.at)

pub take_in : Loop → ℕ → FetchResult → Loop × Label
take_in s at r = elim r.err [
  | none ↦
      let q = collect r.fetched (record { pending = s.pending; seen = s.seen }) in
      (
        record s {
          fetch_done = idle;
          next = r.next;
          err = none;
          pending = q.pending;
          seen = q.seen;
        },
        accepted r.fetched,
      )
  | some e ↦ (record s { fetch_done = idle; next = at + retry_delay; err = some e }, failed e at)
]

pub complete : Loop → Fetching → FetchResult → Option (Loop × Label)
complete s running r = some (record s { fetch_done = ready r }, silent)
complete s _ r = none

pub receive_result : Loop → ℕ → Fetching → Option (Loop × Label)
unfolding take_in
receive_result s at (ready r) = some (take_in s at r)
receive_result s at _ = none

pub send_first : Loop → List Item → Option (Loop × Label)
send_first s [] = none
send_first s (first ∷ rest) = some (record s { pending = rest }, delivered first)

-- The `select`: `none` where the case is not ready.
pub select_case : Loop → Times → Case → Option (Loop × Label)
unfolding can_start complete receive_result send_first
select_case s t start_fetch =
    if can_start s t then some (record s { fetch_done = running }, silent) else none
select_case s t (fetch_completes r) = complete s s.fetch_done r
select_case s t take_result = receive_result s t.at s.fetch_done
select_case s t close_request = some (record s { returned = true }, replied s.err)
select_case s t send_update = send_first s s.pending

-- After `return` only the goroutine of a `Fetch` in flight still moves: its channel has a buffer.
unfoldable pub step : Loop → Times → Case → Option (Loop × Label)
unfolding select_case
step s t (fetch_completes r) = complete s s.fetch_done r
step s t c = if s.returned then none else select_case s t c

-- A run of the loop from a state, with its labels, the latest first.
pub data Run (origin : Loop) : Loop → List Label → Type 0 where
  start : {s : Loop} → s ≡ origin → Run origin s []
  later :
      {s s' : Loop} {ls : List Label} {l : Label}
      → Run origin s ls
      → (t : Times) (c : Case) → step s t c ≡ some (s', l)
      → Run origin s' (l ∷ ls)

-- The runs of the goroutine that `Subscribe` starts.
abbrev pub Reach : Loop → List Label → Type 0
Reach = Run initial

-- The items of all batches that were taken in, in order.
abbrev pub fetched_items : List Label → List Item
fetched_items [] = []
fetched_items (accepted xs ∷ ls) = fetched_items ls ++ xs
fetched_items (_ ∷ ls) = fetched_items ls

-- The items that the subscriber has received, in order.
abbrev pub sent_items : List Label → List Item
sent_items [] = []
sent_items (delivered x ∷ ls) = sent_items ls ++ x ∷ []
sent_items (_ ∷ ls) = sent_items ls

-- The outcome of the latest fetch: its error and the time at which it was handled.
abbrev pub last_failure : List Label → Option (Error × ℕ)
last_failure [] = none
last_failure (accepted xs ∷ ls) = none
last_failure (failed e at ∷ ls) = some (e, at)
last_failure (_ ∷ ls) = last_failure ls
