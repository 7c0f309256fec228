-- ===== src/FeedReader/Sync/Parts.antt =====
-- `mergedLoop` is `loopCloseOnly`, `loopFetchOnly` and `loopSendOnly` in one.
use mathlib.Core.Option
use awesome_patterns.Base.{ℕ, ◌≡◌, refl, false, List, [], ◌∷◌, arith}
use awesome_patterns.FeedReader.{Item, FetchResult}
use awesome_patterns.FeedReader.Sub.{Times, Label}
use awesome_patterns.FeedReader.Sync.{
  CloseLoop, FetchLoop, MergedLoop, close_step, fetch_step, send_step, merged_step, merged_send,
  fetch, close, send,
}

abbrev pub close_part : MergedLoop → CloseLoop
close_part s = record { err = s.err; returned = s.returned }

abbrev pub fetch_part : MergedLoop → FetchLoop
fetch_part s = record { pending = s.pending; next = s.next; err = s.err }

abbrev on_state {ℓ κ} : {A : Type ℓ} {B : Type κ} → (A → B) → A × Label → B × Label
on_state f (s, l) = (f s, l)

merged_send-part :
    (s : MergedLoop) (xs : List Item)
    → Option.map (on_state (λ (s : MergedLoop). s.pending)) (merged_send s xs) ≡ send_step xs
unfolding merged_send send_step
merged_send-part s [] = refl
merged_send-part s (x ∷ xs) = refl

-- Until it returns, `mergedLoop` takes each case just when the version with that case alone does,
-- with the same answer and the same effect on the variables of that version.
merged_step-parts :
    (s : MergedLoop) (t : Times)
    → s.returned ≡ false
    → (Option.map (on_state close_part) (merged_step s t close) ≡ close_step (close_part s))
      × ((r : FetchResult) (done : ℕ)
          → Option.map (on_state fetch_part) (merged_step s t (fetch r done))
            ≡ fetch_step (fetch_part s) t r done)
      × (Option.map (on_state (λ (s : MergedLoop). s.pending)) (merged_step s t send)
          ≡ send_step s.pending)
unfolding merged_step close_step fetch_step
merged_step-parts s t open_ =
    (ground arith, λ r done. ground arith, ground (arith, merged_send-part s s.pending))
