-- ===== src/FeedReader/Sub/Timing.antt =====
-- When `sub.loop` starts a `Fetch`.
use awesome_patterns.Base.{ℕ, ◌+◌, ◌≤◌, ◌<◌, ◌≡◌, List, some, arith, length}
use awesome_patterns.FeedReader.{Error}
use awesome_patterns.FeedReader.Sub.{
  Loop, Times, start_fetch, Label, idle, running, max_pending, retry_delay, can_start, step, Reach,
  last_failure,
}
use awesome_patterns.FeedReader.Sub.Invariant.{Reach-Inv}

-- A `Fetch` is started only while none runs, with fewer than `max_pending` items pending, and not
-- before the time that the last fetch asked for; after a failure that is at least `retry_delay` after
-- the failure was handled. Starting it changes nothing else.
start_fetch-waits :
    {s s' : Loop} {ls : List Label} {l : Label}
    → Reach s ls
    → (t : Times) → step s t start_fetch ≡ some (s', l)
    → (s.fetch_done ≡ idle)
      × (length s.pending < max_pending)
      × (s.next ≤ t.at)
      × ((e : Error) (at : ℕ) → last_failure ls ≡ some (e, at) → at + retry_delay ≤ t.at)
      × (s' ≡ record s { fetch_done = running })
unfolding step can_start
start_fetch-waits {s} r t h = (
  ground arith,
  ground arith,
  ground arith,
  λ e at f. ground (arith, (Reach-Inv r).backoff e at f),
  ground arith,
)
