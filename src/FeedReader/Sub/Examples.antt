-- ===== src/FeedReader/Sub/Examples.antt =====
-- A run of `sub.loop`: a fetch of three items, two of them with one GUID, and one item sent.
use awesome_patterns.Base.{◌+◌, ◌<◌, ◌≡◌, refl, List, [], ◌∷◌, none, arith, length, string_discrete}
use awesome_patterns.FeedReader.{Item, FetchResult}
use awesome_patterns.FeedReader.Items.{Intake, collect, firsts}
use awesome_patterns.FeedReader.Sub.{
  Loop, Times, Label, Reach, start, later, initial, step, start_fetch, fetch_completes, take_result,
  send_update, silent, accepted, delivered, idle, running, max_pending,
}
use awesome_patterns.FeedReader.Sub.Delivery.{sent_pending_firsts, pending-lt}

abbrev first_item : Item
first_item = record { title = "one"; channel = "c"; guid = "c/1" }

abbrev second_item : Item
second_item = record { title = "two"; channel = "c"; guid = "c/2" }

abbrev items : List Item
items = first_item ∷ second_item ∷ first_item ∷ []

abbrev fetched : FetchResult
fetched = record { fetched = items; next = 50; err = none }

abbrev times : Times
times = record { now = 3; at = 4 }

abbrev running_loop : Loop
running_loop = unfold initial in record initial { fetch_done = running }

abbrev intake : Intake
intake =
    unfold collect string_discrete in
    collect items (record { pending = []; seen = running_loop.seen })

abbrev fed_loop : Loop
fed_loop = record running_loop {
  fetch_done = idle;
  next = 50;
  pending = intake.pending;
  seen = intake.seen;
}

abbrev fed_labels : List Label
fed_labels = accepted items ∷ silent ∷ silent ∷ []

fed : Reach fed_loop fed_labels
unfolding initial step collect string_discrete
fed =
    later (later (later (start refl) times start_fetch refl) times (fetch_completes fetched) refl)
      times take_result refl

abbrev sent_loop : Loop
sent_loop = record fed_loop { pending = second_item ∷ [] }

sent : Reach sent_loop (delivered first_item ∷ fed_labels)
unfolding initial step collect string_discrete
sent = later fed times send_update refl

sent_pending_firsts_example : first_item ∷ second_item ∷ [] ≡ firsts items
sent_pending_firsts_example = sent_pending_firsts sent

pending-lt_example : length sent_loop.pending < max_pending + 3
pending-lt_example = pending-lt 3 sent (omega arith)
