-- ===== src/FeedReader/Sub/Delivery.antt =====
-- What the subscriber of `sub.loop` receives, and how much waits for it.
use awesome_patterns.Base.{
  ℕ, ◌+◌, ◌≤◌, ◌<◌, ◌≡◌, refl, sym, ap, ◌∙◌, false, List, [], ◌∷◌, ◌++◌, some, arith, length,
  else-eq-some, append-nil, append_assoc, ◌≢◌,
}
use mathlib.Core.Path.{subst}
use mathlib.Core.Option.{some-injective}
use awesome_patterns.FeedReader.{Item}
use awesome_patterns.FeedReader.Items.{
  firsts, firsts-Distinct, Distinct, append-Distinct, length-collect,
}
use awesome_patterns.FeedReader.Sub.{
  start_fetch, fetch_completes, take_result, close_request, Fetching, idle, running, ready, initial,
  receive_result, Loop, Times, Case, send_update, Label, accepted, delivered, max_pending, step,
  Run, Reach, start, later, fetched_items, sent_items,
}
use awesome_patterns.FeedReader.Sub.Invariant.{Reach-Inv}

-- In every reachable state, the items already sent followed by those pending are the first item of
-- each GUID among all items fetched without error, in the order of the batches.
pub sent_pending_firsts :
    {s : Loop} {ls : List Label}
    → Reach s ls
    → sent_items ls ++ s.pending ≡ firsts (fetched_items ls)
sent_pending_firsts r = (Reach-Inv r).order

-- No run sends two items with one GUID.
sent_items-Distinct : {s : Loop} {ls : List Label} → Reach s ls → Distinct (sent_items ls)
sent_items-Distinct {s} {ls} r =
    append-Distinct (sent_items ls) s.pending
      (subst Distinct (sym (sent_pending_firsts r)) (firsts-Distinct (fetched_items ls)))

send_update-step :
    (s : Loop) (t : Times) (x : Item) (xs : List Item)
    → s.returned ≡ false
    → s.pending ≡ x ∷ xs
    → step s t send_update ≡ some (record s { pending = xs }, delivered x)
unfolding step
send_update-step s t x xs open_ e = ground arith

drain :
    {origin : Loop} (xs : List Item) (s : Loop) (ls : List Label)
    → Run origin s ls
    → s.returned ≡ false
    → s.pending ≡ xs
    → (s' : Loop) × (ls' : List Label) × Run origin s' ls'
      × (sent_items ls' ≡ sent_items ls ++ xs)
      × (s'.pending ≡ [])
drain [] s ls r open_ e = (s, ls, r, sym (append-nil (sent_items ls)), e)
drain (x ∷ xs) s ls r open_ e =
    let (s', ls', r', d, f) =
      drain xs (record s { pending = xs }) (delivered x ∷ ls)
        (later r t send_update (send_update-step s t x xs open_ e)) open_ refl in
    (s', ls', r', d ∙ append_assoc (sent_items ls) (x ∷ []) xs, f)
  where
    t : Times
    t = record { now = 0; at = 0 }

-- From every state in which `Close` was not served, the loop can go on, whatever `Fetch` does, until
-- it has sent just the pending items, in their order.
pending_delivered :
    (s : Loop)
    → s.returned ≡ false
    → (s' : Loop) × (ls : List Label) × Run s s' ls
      × (sent_items ls ≡ s.pending)
      × (s'.pending ≡ [])
pending_delivered s open_ = drain s.pending s [] (start refl) open_ refl

-- The number of items that a step takes in.
abbrev pub batch : Label → ℕ
batch (accepted xs) = length xs
batch _ = 0

-- Every batch taken in has at most `b` items.
abbrev pub BatchesUpTo : ℕ → List Label → Type 0
BatchesUpTo b [] = Unit
BatchesUpTo b (l ∷ ls) = (batch l ≤ b) × BatchesUpTo b ls

-- Only a batch that was fetched makes the pending items more.
abbrev Grows : Loop → Loop × Label → Type 0
Grows s (s', l) =
    (length s'.pending ≤ length s.pending + batch l) × (0 < batch l → s.fetch_done ≢ idle)

returns-Grows :
    (s : Loop) {s' : Loop} {l : Label} (x : Loop × Label)
    → some x ≡ some (s', l)
    → Grows s x
    → Grows s (s', l)
returns-Grows s x e w = subst (Grows s) (some-injective _ _ e) w

receive_result-Grows :
    (s : Loop) {s' : Loop} {l : Label} (at : ℕ) (f : Fetching)
    → s.fetch_done ≡ f
    → receive_result s at f ≡ some (s', l)
    → Grows s (s', l)
unfolding receive_result
receive_result-Grows s at (ready r) e h = returns-Grows s _ h (
  ground (arith, length-collect r.fetched (record { pending = s.pending; seen = s.seen })),
  λ _ i. ground arith,
)
receive_result-Grows s at idle e h = cc
receive_result-Grows s at running e h = cc

step-Grows :
    (s : Loop) {s' : Loop} {l : Label} (t : Times) (c : Case)
    → step s t c ≡ some (s', l)
    → Grows s (s', l)
unfolding step
step-Grows s t start_fetch h = ground arith
step-Grows s t (fetch_completes r) h = ground arith
step-Grows s t take_result h =
    receive_result-Grows s t.at s.fetch_done refl (else-eq-some s.returned _ h).1
step-Grows s t close_request h = ground arith
step-Grows s t send_update h = ground arith

-- While no batch has more than `b` items, at most `max_pending - 1 + b` items are pending: a fetch
-- is started below the limit only, and nothing is taken in beside it.
pub pending-lt :
    {s : Loop} {ls : List Label} (b : ℕ)
    → Reach s ls
    → BatchesUpTo b ls
    → length s.pending < max_pending + b
unfolding initial
pending-lt b (start e) h = ground (arith, ap (λ (s : Loop). length s.pending) e)
pending-lt b (later {s = s} r t c e) h =
    ground (arith, step-Grows s t c e, (Reach-Inv r).room, pending-lt b r h.1)
