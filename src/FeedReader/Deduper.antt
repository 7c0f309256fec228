-- ===== src/FeedReader/Deduper.antt =====
-- concurrency/feedreader/main.go: `NaiveDedupe`, and the goroutine of `Dedupe`.
pub mod Laws
mod Examples
use awesome_patterns.Base.{
  ◌≡◌, Bool, true, false, not, ◌&&◌, List, [], ◌∷◌, ◌++◌, Option, none, some, if◌then◌else◌,
}
use awesome_patterns.FeedReader.{Item, Error}
use awesome_patterns.FeedReader.Items.{Seen, unseen, mark}

-- The `for it := range in` of `NaiveDedupe`: what it sends on `out` for the rest of the input.
pub naive_dedupe : Seen → List Item → List Item
naive_dedupe seen [] = []
naive_dedupe seen (it ∷ rest) =
    let kept = it ∷ naive_dedupe (mark it.guid seen) rest in
    let dropped = naive_dedupe seen rest in if not (seen it.guid) then kept else dropped

-- The local variables of `deduper.loop`: `in` and `out` are nil where they are not enabled.
pub record Deduper : Type 0 where
  pub in_enabled : Bool
  pub pending : Item
  pub out_enabled : Bool
  pub seen : Seen
  pub returned : Bool

-- The zero `Item`.
abbrev pub no_item : Item
no_item = record { title = ""; channel = ""; guid = "" }

abbrev pub initial : Deduper
initial = record {
  in_enabled = true;
  pending = no_item;
  out_enabled = false;
  seen = unseen;
  returned = false;
}

-- The case taken, with the item received, or with what the inner subscription's `Close` returned.
pub data Case : Type 0 where
  receive : Item → Case
  send : Case
  close : Option Error → Case

pub accept : Deduper → Item → Deduper
accept d it =
    if not (d.seen it.guid)
    then (record d {
      pending = it;
      in_enabled = false;
      out_enabled = true;
      seen = mark it.guid d.seen;
    })
    else d

pub select_case : Deduper → Case → Option Deduper
unfolding accept
select_case d (receive it) = if d.in_enabled then some (accept d it) else none
select_case d send =
    if d.out_enabled then some (record d { in_enabled = true; out_enabled = false }) else none
select_case d (close err) = some (record d { returned = true })

pub step : Deduper → Case → Option Deduper
unfolding select_case
step d c = if d.returned then none else select_case d c

-- A run, with the items received and the items sent, in order.
pub data Run : Deduper → List Item → List Item → Type 0 where
  start : {d : Deduper} → d ≡ initial → Run d [] []
  received :
      {d d' : Deduper} {ins outs : List Item}
      → Run d ins outs
      → (it : Item) → step d (receive it) ≡ some d'
      → Run d' (ins ++ it ∷ []) outs
  sent :
      {d d' : Deduper} {ins outs : List Item}
      → Run d ins outs
      → step d send ≡ some d'
      → Run d' ins (outs ++ d.pending ∷ [])
  closed :
      {d d' : Deduper} {ins outs : List Item}
      → Run d ins outs
      → (err : Option Error) → step d (close err) ≡ some d'
      → Run d' ins outs
