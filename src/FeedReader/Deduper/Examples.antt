-- ===== src/FeedReader/Deduper/Examples.antt =====
-- `Dedupe` receives an item twice and sends it once.
use awesome_patterns.Base.{◌≡◌, refl, [], ◌∷◌, string_discrete}
use awesome_patterns.FeedReader.{Item}
use awesome_patterns.FeedReader.Items.{unseen, mark}
use awesome_patterns.FeedReader.Deduper.{
  Deduper, Run, start, received, sent, initial, step, naive_dedupe,
}
use awesome_patterns.FeedReader.Deduper.Laws.{deduper_refines_naive}

abbrev item : Item
item = record { title = "one"; channel = "c"; guid = "c/1" }

abbrev after : Deduper
after = record initial { pending = item; seen = mark "c/1" unseen }

twice : Run after (item ∷ item ∷ []) (item ∷ [])
unfolding step string_discrete
twice = received (sent (received (start refl) item refl) refl) item refl

deduper_refines_naive_example : item ∷ [] ≡ naive_dedupe unseen (item ∷ item ∷ [])
deduper_refines_naive_example = (deduper_refines_naive twice).0
