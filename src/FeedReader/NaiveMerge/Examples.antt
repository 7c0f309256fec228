-- ===== src/FeedReader/NaiveMerge/Examples.antt =====
-- One subscription, whose item no one receives.
use awesome_patterns.Base.{◌≡◌, refl, true, false, [], ◌∷◌, none, some}
use awesome_patterns.FeedReader.{Item}
use awesome_patterns.FeedReader.NaiveMerge.{
  sending, not_called, NaiveMerged, naive_merge, receive, deliver, call_close, finish_close,
  returned, panics, on_receive, step, Reach, start, later,
}
use awesome_patterns.FeedReader.NaiveMerge.Laws.{close_calls, blocked_send_panics}

abbrev item : Item
item = record { title = "a"; channel = "c"; guid = "1" }

abbrev waiting : NaiveMerged
waiting = record {
  subs = sending item ∷ [];
  closer = not_called;
  err = none;
  updates_closed = false;
}

waiting_reach : Reach 1 waiting (receive 0 item ∷ [])
unfolding naive_merge step on_receive
waiting_reach = later (start refl) (receive 0 item) refl

blocked_send_panics_example :
    (m' : NaiveMerged) × Reach 1 m'
      (finish_close ∷ close_calls (some "refused" ∷ []) (call_close ∷ receive 0 item ∷ []))
    × (m'.closer ≡ returned)
    × (m'.updates_closed ≡ true)
    × (step m' (deliver 0) ≡ panics)
blocked_send_panics_example =
    blocked_send_panics (some "refused" ∷ []) waiting_reach 0 item refl refl refl
