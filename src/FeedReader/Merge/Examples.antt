-- ===== src/FeedReader/Merge/Examples.antt =====
-- Two merged subscriptions: one item is delivered, then both are closed, the second with an error.
use awesome_patterns.Base.{
  false, ℕ, ◌≡◌, refl, true, List, [], ◌∷◌, ◌++◌, Option, none, some, ◌≢◌, All,
}
use awesome_patterns.FeedReader.{Item, Error}
use awesome_patterns.FeedReader.Merge.{
  Merged, merge, Action, receive, deliver, quit_sub, report, call_close, finish_close, receiving,
  sending, done, collecting, returned, panics, step, Reach, start, later,
}
use awesome_patterns.FeedReader.Merge.Safety.{merge_never_panics}
use awesome_patterns.FeedReader.Merge.Progress.{Closes, close_returns}

abbrev item : Item
item = record { title = "one"; channel = "c"; guid = "c/1" }

abbrev called : Merged
called = record {
  subs = receiving ∷ sending item ∷ [];
  quit = true;
  closer = collecting 2;
  err = none;
  updates_closed = false;
}

abbrev called_history : List Action
called_history = call_close ∷ receive 1 item ∷ deliver 0 ∷ receive 0 item ∷ []

called_reach : Reach 2 called called_history
unfolding merge step
called_reach =
    later
      (later (later (later (start refl) (receive 0 item) refl) (deliver 0) refl) (receive 1 item)
        refl)
      call_close refl

abbrev closed : Merged
closed = record {
  subs = done ∷ done ∷ [];
  quit = true;
  closer = returned;
  err = some "refused";
  updates_closed = true;
}

abbrev closed_history : List Action
closed_history =
    finish_close
    ∷ report 1
    ∷ report 0
    ∷ quit_sub 1 (some "refused")
    ∷ quit_sub 0 none
    ∷ called_history

closed_reach : Reach 2 closed closed_history
unfolding step
closed_reach =
    later
      (later
        (later
          (later (later called_reach (quit_sub 0 none) refl) (quit_sub 1 (some "refused")) refl)
          (report 0) refl)
        (report 1) refl)
      finish_close refl

merge_never_panics_example : step called (deliver 1) ≢ panics
merge_never_panics_example = merge_never_panics called_reach (deliver 1) (λ e. cc)

abbrev refusals : ℕ → Option Error
refusals i = some "refused"

close_returns_example :
    (m' : Merged) × (new : List Action) × Reach 2 m' (new ++ called_history)
    × (m'.closer ≡ returned)
    × (m'.updates_closed ≡ true)
    × All (Closes refusals) new
close_returns_example = close_returns refusals 2 called_reach refl
