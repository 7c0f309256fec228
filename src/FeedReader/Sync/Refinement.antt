-- ===== src/FeedReader/Sync/Refinement.antt =====
-- `loop` extends `dedupeLoop`: a `Fetch` in the goroutine itself is one that is started, ends and is
-- taken in with nothing in between.
use awesome_patterns.Base.{ℕ, ◌≡◌, refl, ap, List, [], ◌∷◌, some, arith}
use awesome_patterns.FeedReader.{FetchResult}
use awesome_patterns.FeedReader.Sub.{
  Loop, Times, Label, silent, idle, running, ready, start_fetch, fetch_completes, take_result,
  close_request, send_update, initial, step, Run, Reach,
}
use awesome_patterns.FeedReader.Sync.{DedupeLoop, fetch, close, send, dedupe_step, DedupeRun}

-- The state of `loop` with no `Fetch` running.
abbrev pub embed : DedupeLoop → Loop
embed s = record {
  fetch_done = idle;
  pending = s.pending;
  next = s.next;
  err = s.err;
  seen = s.seen;
  returned = s.returned;
}

fetch-simulated :
    (s : DedupeLoop) (t : Times) (r : FetchResult) (done : ℕ) {s' : DedupeLoop} {l : Label}
    → dedupe_step s t (fetch r done) ≡ some (s', l)
    → let started = record (embed s) { fetch_done = running } in
      let ended = record started { fetch_done = ready r } in
      (step (embed s) t start_fetch ≡ some (started, silent))
      × (step started t (fetch_completes r) ≡ some (ended, silent))
      × (step ended (record t { at = done }) take_result ≡ some (embed s', l))
unfolding dedupe_step step
fetch-simulated s t r done h = (ground arith, refl, ground arith)

close-simulated :
    (s : DedupeLoop) (t : Times) {s' : DedupeLoop} {l : Label}
    → dedupe_step s t close ≡ some (s', l)
    → step (embed s) t close_request ≡ some (embed s', l)
unfolding dedupe_step step
close-simulated s t h = ground arith

send-simulated :
    (s : DedupeLoop) (t : Times) {s' : DedupeLoop} {l : Label}
    → dedupe_step s t send ≡ some (s', l)
    → step (embed s) t send_update ≡ some (embed s', l)
unfolding dedupe_step step
send-simulated s t h = ground arith

-- The labels that a subscriber or `Close` can tell.
abbrev pub visible : List Label → List Label
visible [] = []
visible (silent ∷ ls) = visible ls
visible (l ∷ ls) = l ∷ visible ls

-- Every run of `dedupeLoop` is a run of `loop` with the same labels but for the silent ones, which
-- ends in the state with the same variables.
pub dedupe_refines_loop :
    {s : DedupeLoop} {ls : List Label}
    → DedupeRun s ls
    → (ms : List Label) × Reach (embed s) ms × (visible ms ≡ visible ls)
unfolding initial
dedupe_refines_loop (DedupeRun.start e) = ([], Run.start (ap embed e), refl)
dedupe_refines_loop (DedupeRun.later {s = s} {l = l} run t (fetch r done) h) =
    let (ms, reach, same) = dedupe_refines_loop run in
    let (a, b, c) = fetch-simulated s t r done h in
    (
      l ∷ silent ∷ silent ∷ ms,
      Run.later (Run.later (Run.later reach t start_fetch a) t (fetch_completes r) b)
          (record t { at = done }) take_result c,
      ground (arith, same),
    )
dedupe_refines_loop (DedupeRun.later {s = s} {l = l} run t close h) =
    let (ms, reach, same) = dedupe_refines_loop run in
    (l ∷ ms, Run.later reach t close_request (close-simulated s t h), ground (arith, same))
dedupe_refines_loop (DedupeRun.later {s = s} {l = l} run t send h) =
    let (ms, reach, same) = dedupe_refines_loop run in
    (l ∷ ms, Run.later reach t send_update (send-simulated s t h), ground (arith, same))
