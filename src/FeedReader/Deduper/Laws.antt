-- ===== src/FeedReader/Deduper/Laws.antt =====
-- `NaiveDedupe` and `Dedupe` send the first item of each GUID.
use mathlib.Core.Path.{subst}
use mathlib.Core.Option.{some-injective}
use awesome_patterns.Base.{
  ◌≡◌, refl, sym, ap, ◌∙◌, true, false, not, List, [], ◌∷◌, ◌++◌, arith, if◌then◌else◌, append-nil,
  String, else-eq-some, then-eq-some,
}
use awesome_patterns.FeedReader.{Item}
use awesome_patterns.FeedReader.Items.{
  Seen, unseen, mark, has, firsts, without, firsts-append, has-append, without-unseen, without-mark,
  without-absorb,
}
use awesome_patterns.FeedReader.Deduper.{
  Deduper, naive_dedupe, accept, step, Run, start, received, sent, closed,
}

naive_dedupe-without : (s : Seen) (xs : List Item) → naive_dedupe s xs ≡ without s (firsts xs)
unfolding naive_dedupe firsts without
naive_dedupe-without s [] = refl
naive_dedupe-without s (x ∷ xs) = ground (
  arith,
  naive_dedupe-without s xs,
  naive_dedupe-without (mark x.guid s) xs,
  without-mark x.guid s (firsts xs),
  without-absorb x.guid s (firsts xs),
)

-- `NaiveDedupe` sends just the first item of each GUID, in the order of the input.
pub naive_dedupe-firsts : (xs : List Item) → naive_dedupe unseen xs ≡ firsts xs
naive_dedupe-firsts xs = naive_dedupe-without unseen xs ∙ without-unseen (firsts xs)

-- The item that waits to be sent.
abbrev pub held : Deduper → List Item
held d = if d.out_enabled then d.pending ∷ [] else []

pub record Inv (d : Deduper) (ins outs : List Item) : Type 0 where
  pub order : outs ++ held d ≡ firsts ins
  pub marked : (g : String) → d.seen g ≡ has g ins
  pub one_enabled : d.in_enabled ≡ not d.out_enabled

firsts-snoc :
    (xs : List Item) (x : Item)
    → firsts (xs ++ x ∷ []) ≡ (if has x.guid xs then firsts xs else firsts xs ++ x ∷ [])
unfolding firsts without
firsts-snoc xs x = firsts-append xs (x ∷ []) ∙ ground (arith, append-nil (firsts xs))

module _ (d : Deduper) {ins outs : List Item} (v : Inv d ins outs) where
  accept-Inv : (it : Item) → d.in_enabled ≡ true → Inv (accept d it) (ins ++ it ∷ []) outs
  unfolding accept has
  accept-Inv it e = record {
    order =
        ground
          (arith, v.order, v.marked it.guid, v.one_enabled, firsts-snoc ins it, append-nil outs);
    marked =
        λ g. ground (arith, v.marked g, v.marked it.guid, has-append g ins (it ∷ []), ap d.seen);
    one_enabled = ground (arith, v.one_enabled);
  }

  sent-Inv :
      d.out_enabled ≡ true
      → Inv (record d { in_enabled = true; out_enabled = false }) ins (outs ++ d.pending ∷ [])
  sent-Inv e = record {
    order = append-nil (outs ++ d.pending ∷ []) ∙ ground (arith, v.order);
    marked = v.marked;
    one_enabled = refl;
  }

pub Run-Inv : {d : Deduper} {ins outs : List Item} → Run d ins outs → Inv d ins outs
unfolding step firsts has
Run-Inv (start e) = rw e (record { order = refl; marked = λ g. refl; one_enabled = refl })
Run-Inv (received {d = d} {ins = ins} {outs = outs} r it h) =
    let (e, f) = then-eq-some d.in_enabled _ (else-eq-some d.returned _ h).1 in
    subst (λ x. Inv x (ins ++ it ∷ []) outs) (some-injective _ _ f) (accept-Inv d (Run-Inv r) it e)
Run-Inv (sent {d = d} {ins = ins} {outs = outs} r h) =
    let (e, f) = then-eq-some d.out_enabled _ (else-eq-some d.returned _ h).1 in
    subst (λ x. Inv x ins (outs ++ d.pending ∷ [])) (some-injective _ _ f)
      (sent-Inv d (Run-Inv r) e)
Run-Inv (closed {d = d} {ins = ins} {outs = outs} r err h) =
    let v = Run-Inv r in
    subst (λ x. Inv x ins outs) (some-injective _ _ (else-eq-some d.returned _ h).1)
      (record { order = v.order; marked = v.marked; one_enabled = v.one_enabled })

-- In every state that the goroutine of `Dedupe` reaches, the items sent, and the one held if `out` is
-- enabled, are the first item of each GUID among the items received; so `Dedupe` sends what
-- `NaiveDedupe` sends on the same input, except perhaps the last item. Just one of `in` and `out`
-- is enabled.
pub deduper_refines_naive :
    {d : Deduper} {ins outs : List Item}
    → Run d ins outs
    → (outs ++ held d ≡ naive_dedupe unseen ins) × (d.in_enabled ≡ not d.out_enabled)
deduper_refines_naive {ins = ins} r =
    ((Run-Inv r).order ∙ sym (naive_dedupe-firsts ins), (Run-Inv r).one_enabled)
