-- ===== src/FeedReader/Sub/Closing.antt =====
-- `Close` on the subscription of `sub.loop`.
use awesome_patterns.Base.{◌≡◌, true, false, List, Option, none, some, arith}
use awesome_patterns.FeedReader.{Error}
use awesome_patterns.FeedReader.Sub.{
  Loop, Times, Case, start_fetch, fetch_completes, take_result, close_request, send_update, Label,
  silent, replied, step, Reach, last_failure,
}
use awesome_patterns.FeedReader.Sub.Invariant.{Reach-Inv}

-- The error of the latest fetch that was handled.
abbrev last_error : List Label → Option Error
last_error ls = elim (last_failure ls) [ none ↦ none | some (e, at) ↦ some e ]

-- Until `Close` is served it can be served at any time: the answer is the error of the latest fetch
-- handled, nil if that fetch succeeded or there was none, and the loop returns.
close_request-reply :
    {s : Loop} {ls : List Label}
    → Reach s ls
    → (t : Times) → s.returned ≡ false
    → step s t close_request ≡ some (record s { returned = true }, replied (last_error ls))
unfolding step
close_request-reply r t open_ = ground (arith, (Reach-Inv r).error)

-- After `Close` no step shows anything: only the `Fetch` in flight may still end, and nothing is
-- sent, taken in or answered again.
returned-silent :
    (s : Loop) (t : Times) (c : Case) {s' : Loop} {l : Label}
    → s.returned ≡ true
    → step s t c ≡ some (s', l)
    → (l ≡ silent) × (s'.returned ≡ true) × (s'.pending ≡ s.pending)
unfolding step
returned-silent s t (fetch_completes r) c h = ground arith
returned-silent s t start_fetch c h = ground arith
returned-silent s t take_result c h = ground arith
returned-silent s t close_request c h = ground arith
returned-silent s t send_update c h = ground arith
