-- ===== src/FeedReader.antt =====
-- concurrency/feedreader/main.go: subscriptions to RSS feeds. This file has the types that the parts
-- share; `Items` has the specification of deduping, the other children have the goroutines.
pub mod Items
pub mod Sub
pub mod Sync
pub mod Deduper
pub mod Merge
pub mod NaiveMerge
use awesome_patterns.Base.{ℕ, String, List, Option}

-- `Item`
pub record Item : Type 0 where
  pub title : String
  pub channel : String
  pub guid : String

-- An error value, by its message. A nil error is `none`.
abbrev pub Error : Type 0
Error = String

-- What `Fetcher.Fetch` returns, and the `fetchResult` of `sub.loop`. Times are nanoseconds since
-- the zero `time.Time`.
pub record FetchResult : Type 0 where
  pub fetched : List Item
  pub next : ℕ
  pub err : Option Error
