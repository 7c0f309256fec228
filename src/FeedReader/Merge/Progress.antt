-- ===== src/FeedReader/Merge/Progress.antt =====
-- `Close` of the merged subscription returns.
use mathlib.Core.Path.{subst, sym}
use awesome_patterns.Base.{
  ℕ, zero, suc, ◌<◌, ◌≡◌, refl, List, [], ◌∷◌, ◌++◌, Option, some, arith, get_elem?, set, total,
  true, append_assoc, All, All-append, get_elem?-set_self,
}
use awesome_patterns.FeedReader.{Error}
use awesome_patterns.FeedReader.Merge.{
  Forwarder, receiving, sending, reporting, done, collecting, returned, Merged, Action, receive,
  deliver, quit_sub, call_close, report, finish_close, moves, keep_error, move, step, Reach, later,
}
use awesome_patterns.FeedReader.Merge.Invariant.{active, Agrees, Reach-Inv}

total-pos :
    (xs : List Forwarder)
    → 0 < total active xs
    → (i : ℕ) × (p : Forwarder) × (get_elem? xs i ≡ some p) × (active p ≡ 1)
total-pos [] h = absurd (omega arith)
total-pos (receiving ∷ xs) h = (0, receiving, refl, refl)
total-pos (sending it ∷ xs) h = (0, sending it, refl, refl)
total-pos (reporting e ∷ xs) h = (0, reporting e, refl, refl)
total-pos (done ∷ xs) h = let (i, p, e, a) = total-pos xs (omega arith) in (suc i, p, e, a)

-- The actions of `Close` and of the goroutines that end, where the `Close` of each subscription
-- returns what `closes` says: no item is taken from a subscription, and none is received from
-- `updates`.
abbrev pub Closes : (ℕ → Option Error) → Action → Type 0
Closes closes (receive i it) = ⊥
Closes closes (deliver i) = ⊥
Closes closes (quit_sub i e) = e ≡ closes i
Closes closes (report i) = Unit
Closes closes call_close = ⊥
Closes closes finish_close = Unit

module _ (closes : ℕ → Option Error) where
  -- One more goroutine has ended and been counted.
  abbrev Counted : ℕ → ℕ → List Action → Type 0
  Counted n k acts =
      (m : Merged) × (new : List Action) × Reach n m (new ++ acts)
      × (m.closer ≡ collecting k)
      × All (Closes closes) new

  report-Counted :
      {n : ℕ} {m : Merged} {acts : List Action} (k i : ℕ) (e : Option Error)
      → Reach n m acts
      → m.closer ≡ collecting (suc k)
      → get_elem? m.subs i ≡ some (reporting e)
      → Counted n k acts
  unfolding step
  report-Counted {m = m} k i e r c f = (
    record m { subs = set m.subs i done; closer = collecting k; err = keep_error m.err e },
    report i ∷ [],
    later r (report i) (rw (f, c)),
    refl,
    (tt, tt),
  )

  -- Some actions, and before them others.
  before-Counted :
      {n k : ℕ} {acts : List Action} (first : List Action)
      → Counted n k (first ++ acts)
      → All (Closes closes) first
      → Counted n k acts
  before-Counted {n} {k} {acts} first (m, new, r, c, a) b = (
    m,
    new ++ first,
    subst (Reach n m) (sym (append_assoc new first acts)) r,
    c,
    All-append (Closes closes) new first a b,
  )

  quit-Counted :
      {n : ℕ} {m : Merged} {acts : List Action} (k i : ℕ) {p : Forwarder}
      → Reach n m acts
      → m.closer ≡ collecting (suc k)
      → get_elem? m.subs i ≡ some p
      → step m (quit_sub i (closes i)) ≡ moves (move m i (reporting (closes i)))
      → Counted n k acts
  quit-Counted {m = m} k i r c f g =
      before-Counted (quit_sub i (closes i) ∷ [])
        (report-Counted k i (closes i) (later r (quit_sub i (closes i)) g) c
          (get_elem?-set_self m.subs i (reporting (closes i)) f))
        (refl, tt)

  active-Counted :
      {n : ℕ} {m : Merged} {acts : List Action} (k i : ℕ) (p : Forwarder)
      → Reach n m acts
      → m.closer ≡ collecting (suc k)
      → m.quit ≡ true
      → get_elem? m.subs i ≡ some p
      → active p ≡ 1
      → Counted n k acts
  unfolding step
  active-Counted k i receiving r c q f a = quit-Counted k i r c f (rw (f, q))
  active-Counted k i (sending it) r c q f a = quit-Counted k i r c f (rw (f, q))
  active-Counted k i (reporting e) r c q f a = report-Counted k i e r c f
  active-Counted k i done r c q f a = absurd (omega arith)

  collected :
      {n : ℕ} (k : ℕ) {m : Merged} {acts : List Action}
      → Reach n m acts
      → m.closer ≡ collecting k
      → Counted n 0 acts
  collected zero {m = m} r c = (m, [], r, c, tt)
  collected (suc k) {m = m} r c =
      let a = subst (λ c. Agrees c m) c (Reach-Inv r).agrees in
      let (i, p, f, w) = total-pos m.subs (omega (arith, a.2)) in
      let (m', new, r', c', b) = active-Counted k i p r c a.0 f w in
      before-Counted new (collected k r' c') b

-- `Close` does not hang: from every state in which it waits, and whatever the `Close` of each
-- subscription returns, there is a run of its steps and of the goroutines' to its return, with
-- `updates` closed, on which no one receives from `updates` and no subscription sends an item.
pub close_returns :
    (closes : ℕ → Option Error) {n : ℕ} {m : Merged} {acts : List Action} (k : ℕ)
    → Reach n m acts
    → m.closer ≡ collecting k
    → (m' : Merged) × (new : List Action) × Reach n m' (new ++ acts)
      × (m'.closer ≡ returned)
      × (m'.updates_closed ≡ true)
      × All (Closes closes) new
unfolding step
close_returns closes k r c =
    let (m', new, r', c', b) = collected closes k r c in
    (
      record m' { closer = returned; updates_closed = true },
      finish_close ∷ new,
      later r' finish_close (rw c'),
      refl,
      refl,
      (tt, b),
    )
