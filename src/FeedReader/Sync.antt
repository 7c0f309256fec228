-- ===== src/FeedReader/Sync.antt =====
-- concurrency/feedreader/main.go: the versions of `loop` that call `Fetch` in the goroutine itself:
-- `loopCloseOnly`, `loopFetchOnly`, `loopSendOnly`, `mergedLoop` and `dedupeLoop`.
pub mod Parts
pub mod Merged
pub mod Refinement
mod Examples
use awesome_patterns.Base.{
  ℕ, ◌+◌, ◌≡◌, Bool, true, false, ◌&&◌, List, [], ◌∷◌, ◌++◌, Option, none, some, ltb, leb,
  if◌then◌else◌, length,
}
use awesome_patterns.FeedReader.{Item, Error, FetchResult}
use awesome_patterns.FeedReader.Items.{Seen, unseen, collect}
use awesome_patterns.FeedReader.Sub.{
  Times, Label, accepted, failed, delivered, replied, max_pending, retry_delay, fetch_delay,
}

-- The case of the `select`. A `Fetch` is given by its result and the time at which it returned.
pub data SyncCase : Type 0 where
  fetch : FetchResult → ℕ → SyncCase
  close : SyncCase
  send : SyncCase

-- `startFetch`, the timer of the pass, has fired.
pub timer_fired : ℕ → Times → Bool
unfolding fetch_delay
timer_fired next t = leb (t.now + fetch_delay next t.now) t.at

-- `loopCloseOnly`
pub record CloseLoop : Type 0 where
  pub err : Option Error
  pub returned : Bool

pub close_step : CloseLoop → Option (CloseLoop × Label)
close_step s = if s.returned then none else some (record s { returned = true }, replied s.err)

-- `loopFetchOnly`
pub record FetchLoop : Type 0 where
  pub pending : List Item
  pub next : ℕ
  pub err : Option Error

pub append_batch : FetchLoop → FetchResult → ℕ → FetchLoop × Label
append_batch s r done = elim r.err [
  | none ↦
      (record { pending = s.pending ++ r.fetched; next = r.next; err = none }, accepted r.fetched)
  | some e ↦ (record s { next = done + retry_delay; err = some e }, failed e done)
]

pub fetch_step : FetchLoop → Times → FetchResult → ℕ → Option (FetchLoop × Label)
unfolding timer_fired append_batch
fetch_step s t r done = if timer_fired s.next t then some (append_batch s r done) else none

-- `loopSendOnly`: with nothing pending `updates` is a nil channel, and the case blocks.
pub send_step : List Item → Option (List Item × Label)
send_step [] = none
send_step (first ∷ rest) = some (rest, delivered first)

-- `mergedLoop`
pub record MergedLoop : Type 0 where
  pub pending : List Item
  pub next : ℕ
  pub err : Option Error
  pub returned : Bool

pub merge_batch : MergedLoop → FetchResult → ℕ → MergedLoop × Label
merge_batch s r done = elim r.err [
  | none ↦
      (record s { pending = s.pending ++ r.fetched; next = r.next; err = none }, accepted r.fetched)
  | some e ↦ (record s { next = done + retry_delay; err = some e }, failed e done)
]

pub merged_send : MergedLoop → List Item → Option (MergedLoop × Label)
merged_send s [] = none
merged_send s (first ∷ rest) = some (record s { pending = rest }, delivered first)

pub merged_select : MergedLoop → Times → SyncCase → Option (MergedLoop × Label)
unfolding timer_fired merge_batch merged_send
merged_select s t (fetch r done) =
    if timer_fired s.next t then some (merge_batch s r done) else none
merged_select s t close = some (record s { returned = true }, replied s.err)
merged_select s t send = merged_send s s.pending

pub merged_step : MergedLoop → Times → SyncCase → Option (MergedLoop × Label)
unfolding merged_select
merged_step s t c = if s.returned then none else merged_select s t c

-- `dedupeLoop`
pub record DedupeLoop : Type 0 where
  pub pending : List Item
  pub next : ℕ
  pub err : Option Error
  pub seen : Seen
  pub returned : Bool

pub dedupe_batch : DedupeLoop → FetchResult → ℕ → DedupeLoop × Label
dedupe_batch s r done = elim r.err [
  | none ↦
      let q = collect r.fetched (record { pending = s.pending; seen = s.seen }) in
      (
        record s { next = r.next; err = none; pending = q.pending; seen = q.seen },
        accepted r.fetched,
      )
  | some e ↦ (record s { next = done + retry_delay; err = some e }, failed e done)
]

pub dedupe_send : DedupeLoop → List Item → Option (DedupeLoop × Label)
dedupe_send s [] = none
dedupe_send s (first ∷ rest) = some (record s { pending = rest }, delivered first)

pub dedupe_select : DedupeLoop → Times → SyncCase → Option (DedupeLoop × Label)
unfolding timer_fired dedupe_batch dedupe_send
dedupe_select s t (fetch r done) =
    if ltb (length s.pending) max_pending && timer_fired s.next t
    then some (dedupe_batch s r done)
    else none
dedupe_select s t close = some (record s { returned = true }, replied s.err)
dedupe_select s t send = dedupe_send s s.pending

pub dedupe_step : DedupeLoop → Times → SyncCase → Option (DedupeLoop × Label)
unfolding dedupe_select
dedupe_step s t c = if s.returned then none else dedupe_select s t c

abbrev pub initial_merged : MergedLoop
initial_merged = record { pending = []; next = 0; err = none; returned = false }

abbrev pub initial_dedupe : DedupeLoop
initial_dedupe = record { pending = []; next = 0; err = none; seen = unseen; returned = false }

-- Runs of `mergedLoop` and of `dedupeLoop` with their labels, the latest first.
pub data MergedRun : MergedLoop → List Label → Type 0 where
  start : {s : MergedLoop} → s ≡ initial_merged → MergedRun s []
  later :
      {s s' : MergedLoop} {ls : List Label} {l : Label}
      → MergedRun s ls
      → (t : Times) (c : SyncCase) → merged_step s t c ≡ some (s', l)
      → MergedRun s' (l ∷ ls)

pub data DedupeRun : DedupeLoop → List Label → Type 0 where
  start : {s : DedupeLoop} → s ≡ initial_dedupe → DedupeRun s []
  later :
      {s s' : DedupeLoop} {ls : List Label} {l : Label}
      → DedupeRun s ls
      → (t : Times) (c : SyncCase) → dedupe_step s t c ≡ some (s', l)
      → DedupeRun s' (l ∷ ls)
