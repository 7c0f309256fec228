-- ===== src/FeedReader/Sync/Examples.antt =====
-- A fetch of two items with one GUID by `mergedLoop`, which sends both, and by `dedupeLoop`.
use awesome_patterns.Base.{◌≡◌, refl, List, [], ◌∷◌, none, string_discrete}
use awesome_patterns.FeedReader.{Item, FetchResult}
use awesome_patterns.FeedReader.Items.{Intake, collect, unseen}
use awesome_patterns.FeedReader.Sub.{Times, Label, accepted, delivered, Reach, fetch_delay}
use awesome_patterns.FeedReader.Sync.{
  MergedLoop, DedupeLoop, MergedRun, DedupeRun, initial_merged, initial_dedupe, merged_step,
  dedupe_step, fetch, send,
}
use awesome_patterns.FeedReader.Sync.Refinement.{dedupe_refines_loop, embed, visible}

abbrev item : Item
item = record { title = "one"; channel = "c"; guid = "c/1" }

abbrev batch : FetchResult
batch = record { fetched = item ∷ item ∷ []; next = 5; err = none }

abbrev times : Times
times = record { now = 1; at = 1 }

abbrev merged_fed : MergedLoop
merged_fed = record initial_merged { pending = item ∷ item ∷ []; next = 5 }

merged_run :
    MergedRun
      (record merged_fed { pending = item ∷ [] })
      (delivered item ∷ accepted batch.fetched ∷ [])
unfolding merged_step fetch_delay
merged_run =
    MergedRun.later (MergedRun.later (MergedRun.start refl) times (fetch batch 2) refl) times send
      refl

abbrev intake : Intake
intake =
    unfold collect string_discrete in collect batch.fetched (record { pending = []; seen = unseen })

abbrev dedupe_fed : DedupeLoop
dedupe_fed = record initial_dedupe { pending = intake.pending; next = 5; seen = intake.seen }

dedupe_run : DedupeRun dedupe_fed (accepted batch.fetched ∷ [])
unfolding dedupe_step fetch_delay collect string_discrete
dedupe_run = DedupeRun.later (DedupeRun.start refl) times (fetch batch 2) refl

dedupe_refines_loop_example :
    (ms : List Label) × Reach (embed dedupe_fed) ms × (visible ms ≡ accepted batch.fetched ∷ [])
dedupe_refines_loop_example = dedupe_refines_loop dedupe_run
