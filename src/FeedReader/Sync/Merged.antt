-- ===== src/FeedReader/Sync/Merged.antt =====
-- What `mergedLoop` sends.
use mathlib.Core.Path.{subst}
use mathlib.Core.Option.{some-injective}
use awesome_patterns.Base.{
  ℕ, ◌≡◌, refl, sym, ap, ◌∙◌, List, [], ◌∷◌, ◌++◌, some, append_assoc, else-eq-some, then-eq-some,
  Option-cases, inl, inr,
}
use awesome_patterns.FeedReader.{Item, FetchResult}
use awesome_patterns.FeedReader.Sub.{Times, Label, sent_items, fetched_items}
use awesome_patterns.FeedReader.Sync.{
  MergedLoop, SyncCase, fetch, close, send, merge_batch, merged_send, merged_select, merged_step,
  timer_fired, MergedRun, start, later,
}

-- What was sent and what is pending is what was fetched.
abbrev Balanced : List Label → MergedLoop × Label → Type 0
Balanced ls (s, l) = sent_items (l ∷ ls) ++ s.pending ≡ fetched_items (l ∷ ls)

module _ (s : MergedLoop) (ls : List Label)
    (v : sent_items ls ++ s.pending ≡ fetched_items ls) where
  merge_batch-Balanced : (r : FetchResult) (done : ℕ) → Balanced ls (merge_batch s r done)
  unfolding merge_batch
  merge_batch-Balanced r done = elim (Option-cases r.err) [
    | inl e ↦
        rw (e, merge_batch)
          (sym (append_assoc (sent_items ls) s.pending r.fetched) ∙ ap (λ xs. xs ++ r.fetched) v)
    | inr (x, e) ↦ rw (e, merge_batch) v
  ]

  merged_send-Balanced :
      (xs : List Item) {p : MergedLoop × Label}
      → s.pending ≡ xs
      → merged_send s xs ≡ some p
      → Balanced ls p
  unfolding merged_send
  merged_send-Balanced [] e h = cc
  merged_send-Balanced (x ∷ xs) e h =
      subst (Balanced ls) (some-injective _ _ h)
        (append_assoc (sent_items ls) (x ∷ []) xs ∙ (ap (◌++◌ (sent_items ls)) (sym e) ∙ v))

  merged_select-Balanced :
      (t : Times) (c : SyncCase) {p : MergedLoop × Label}
      → merged_select s t c ≡ some p
      → Balanced ls p
  unfolding merged_select
  merged_select-Balanced t (fetch r done) h =
      subst (Balanced ls) (some-injective _ _ (then-eq-some (timer_fired s.next t) _ h).1)
        (merge_batch-Balanced r done)
  merged_select-Balanced t close h = subst (Balanced ls) (some-injective _ _ h) v
  merged_select-Balanced t send h = merged_send-Balanced s.pending refl h

-- `mergedLoop` loses no item, makes none up and keeps their order: in every state that it reaches,
-- the items sent followed by those pending are all items fetched without error.
merged_order :
    {s : MergedLoop} {ls : List Label}
    → MergedRun s ls
    → sent_items ls ++ s.pending ≡ fetched_items ls
unfolding merged_step
merged_order (start e) = rw e
merged_order (later {s = s} {ls = ls} r t c h) =
    merged_select-Balanced s ls (merged_order r) t c (else-eq-some s.returned _ h).1
