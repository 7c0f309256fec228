-- ===== src/FeedReader/NaiveMerge/Laws.antt =====
-- What `Close` of the naive merge does to a goroutine that waits at its send.
use awesome_patterns.Base.{
  ℕ, ◌≡◌, refl, sym, ap, true, List, [], ◌∷◌, Option, some, length, get_elem?, arith,
}
use awesome_patterns.FeedReader.{Item, Error}
use awesome_patterns.FeedReader.NaiveMerge.{
  sending, not_called, closing, returned, NaiveMerged, Action, deliver, call_close, close_sub,
  finish_close, panics, on_deliver, on_call, on_close_sub, on_finish, step, Reach, later,
}

-- The calls of the subscriptions' `Close` that return so, in this order.
abbrev pub close_calls : List (Option Error) → List Action → List Action
close_calls [] acts = acts
close_calls (e ∷ es) acts = close_calls es (close_sub e ∷ acts)

-- The rest of `Close` and nothing else.
finishes :
    (closes : List (Option Error)) {n : ℕ} {m : NaiveMerged} {acts : List Action}
    → Reach n m acts
    → m.closer ≡ closing (length closes)
    → (m' : NaiveMerged) × Reach n m' (finish_close ∷ close_calls closes acts)
      × (m'.subs ≡ m.subs)
      × (m'.closer ≡ returned)
      × (m'.updates_closed ≡ true)
unfolding step on_close_sub on_finish
finishes [] {m = m} r c = (
  record m { closer = returned; updates_closed = true },
  later r finish_close (ap (on_finish m) c),
  refl,
  refl,
  refl,
)
finishes (e ∷ es) {m = m} r c = finishes es (later r (close_sub e) (ap (on_close_sub m e) c)) refl

-- Whenever a goroutine waits at its send and `Close` has not been called, `Close` can be called and
-- run to its return by its own steps alone, with no one receiving and whatever the `Close` of each
-- subscription returns; the send of that goroutine then panics.
pub blocked_send_panics :
    (closes : List (Option Error)) {n : ℕ} {m : NaiveMerged} {acts : List Action}
    → Reach n m acts
    → (i : ℕ) (it : Item) → get_elem? m.subs i ≡ some (sending it)
    → m.closer ≡ not_called
    → length closes ≡ length m.subs
    → (m' : NaiveMerged) × Reach n m' (finish_close ∷ close_calls closes (call_close ∷ acts))
      × (m'.closer ≡ returned)
      × (m'.updates_closed ≡ true)
      × (step m' (deliver i) ≡ panics)
unfolding step on_call on_deliver
blocked_send_panics closes {m = m} r i it s c k =
    let (m', r', same, over, shut) =
      finishes closes (later r call_close (ap (on_call m) c)) (ap closing (sym k)) in
    (m', r', over, shut, ground (arith, s, same, shut, ap (λ fs. get_elem? fs i) same))
