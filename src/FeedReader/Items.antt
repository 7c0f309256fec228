-- ===== src/FeedReader/Items.antt =====
-- The map `seen` of concurrency/feedreader/main.go, the loops that fill it, and an independent
-- description of what they let through: the first item of each GUID.
use awesome_patterns.Base.{
  String, ◌≡◌, refl, sym, ap, ◌∙◌, fun_ext, Bool, true, false, not, ◌&&◌, ◌||◌, List, [], ◌∷◌, ◌++◌,
  append-nil, append_assoc, ite, arith, if◌then◌else◌, string_discrete, Bool-cases, inl, inr,
  length, length-append, ◌≤◌, ◌+◌,
}
use awesome_patterns.FeedReader.{Item}

-- A `map[string]bool`, as the function that an index expression computes.
abbrev pub Seen : Type 0
Seen = String → Bool

-- `make(map[string]bool)`
abbrev pub unseen : Seen
unseen g = false

-- `seen[id] = true`
abbrev pub mark : String → Seen → Seen
mark id seen g = ite (string_discrete id g) true (seen g)

-- `pending` and `seen`, as the fetch cases of the loops change them.
pub record Intake : Type 0 where
  pub pending : List Item
  pub seen : Seen

-- `for _, item := range fetched { if !seen[item.GUID] { … } }`
unfoldable pub collect : List Item → Intake → Intake
collect [] q = q
collect (item ∷ rest) q = collect rest (
    if not (q.seen item.guid)
    then (record { pending = q.pending ++ item ∷ []; seen = mark item.guid q.seen })
    else q)

-- Whether an item of the list has the GUID.
unfoldable pub has : String → List Item → Bool
has g [] = false
has g (x ∷ xs) = ite (string_discrete x.guid g) true (has g xs)

-- The items whose GUIDs are not in the set.
unfoldable pub without : Seen → List Item → List Item
without s [] = []
without s (x ∷ xs) = let rest = without s xs in if s x.guid then rest else x ∷ rest

-- The first item of each GUID, in order.
unfoldable pub firsts : List Item → List Item
firsts [] = []
firsts (x ∷ xs) = x ∷ without (mark x.guid unseen) (firsts xs)

pub without-unseen : (xs : List Item) → without unseen xs ≡ xs
unfolding without
without-unseen [] = refl
without-unseen (x ∷ xs) = ap (◌∷◌ x) (without-unseen xs)

pub without-append :
    (s : Seen) (xs ys : List Item) → without s (xs ++ ys) ≡ without s xs ++ without s ys
unfolding without
without-append s [] ys = refl
without-append s (x ∷ xs) ys = ground (arith, without-append s xs ys)

without-without :
    (s t : Seen) (xs : List Item) → without s (without t xs) ≡ without (λ g. t g || s g) xs
unfolding without
without-without s t [] = refl
without-without s t (x ∷ xs) = ground (arith, without-without s t xs)

pub without-mark :
    (g : String) (s : Seen) (xs : List Item)
    → without s (without (mark g unseen) xs) ≡ without (mark g s) xs
without-mark g s xs =
    without-without s (mark g unseen) xs ∙ ap (λ t. without t xs) (fun_ext (λ h. ground arith))

pub without-absorb :
    (g : String) (s : Seen) (xs : List Item)
    → s g ≡ true
    → without s (without (mark g unseen) xs) ≡ without s xs
without-absorb g s xs e =
    without-without s (mark g unseen) xs
    ∙ ap (λ t. without t xs) (fun_ext (λ h. ground (arith, ap s)))

-- The loop appends the items of the batch that are first of their GUID and were not seen before.
pub collect-pending :
    (xs : List Item) (q : Intake) → (collect xs q).pending ≡ q.pending ++ without q.seen (firsts xs)
unfolding collect firsts without
collect-pending [] q = sym (append-nil q.pending)
collect-pending (x ∷ xs) q = elim (Bool-cases (q.seen x.guid)) [
  | inl old ↦
      ground (arith, old, collect-pending xs q, without-absorb x.guid q.seen (firsts xs) old)
  | inr new ↦ ground (
    arith,
    new,
    collect-pending xs (record { pending = q.pending ++ x ∷ []; seen = mark x.guid q.seen }),
    without-mark x.guid q.seen (firsts xs),
    append_assoc q.pending (x ∷ []) (without (mark x.guid q.seen) (firsts xs)),
  )
]

-- Afterwards just the GUIDs of the batch are seen in addition.
pub collect-seen :
    (xs : List Item) (q : Intake) (g : String) → (collect xs q).seen g ≡ (has g xs || q.seen g)
unfolding collect has
collect-seen [] q g = refl
collect-seen (x ∷ xs) q g = ground (
  arith,
  collect-seen xs q g,
  collect-seen xs (record { pending = q.pending ++ x ∷ []; seen = mark x.guid q.seen }) g,
  ap q.seen,
)

-- Marking the GUIDs of a batch that comes later.
pub firsts-append :
    (xs ys : List Item) → firsts (xs ++ ys) ≡ firsts xs ++ without (λ g. has g xs) (firsts ys)
unfolding firsts has
firsts-append [] ys = sym (without-unseen (firsts ys))
firsts-append (x ∷ xs) ys = ap (◌∷◌ x) (
    ap (without (mark x.guid unseen)) (firsts-append xs ys)
    ∙ without-append (mark x.guid unseen) (firsts xs) (without (λ g. has g xs) (firsts ys))
    ∙ ap (λ t. without (mark x.guid unseen) (firsts xs) ++ t)
        (without-without (mark x.guid unseen) (λ g. has g xs) (firsts ys)
          ∙ ap (λ s. without s (firsts ys)) (fun_ext (λ g. ground arith))))

pub has-append : (g : String) (xs ys : List Item) → has g (xs ++ ys) ≡ (has g xs || has g ys)
unfolding has
has-append g [] ys = refl
has-append g (x ∷ xs) ys = ground (arith, has-append g xs ys)

-- No two items of the list have one GUID.
abbrev pub Distinct : List Item → Type 0
Distinct [] = Unit
Distinct (x ∷ xs) = (has x.guid xs ≡ false) × Distinct xs

pub append-Distinct : (xs ys : List Item) → Distinct (xs ++ ys) → Distinct xs
unfolding has
append-Distinct [] ys d = tt
append-Distinct (x ∷ xs) ys d =
    (ground (arith, d.0, has-append x.guid xs ys), append-Distinct xs ys d.1)

pub length-collect :
    (xs : List Item) (q : Intake) → length (collect xs q).pending ≤ length q.pending + length xs
unfolding collect
length-collect [] q = omega arith
length-collect (x ∷ xs) q = ground (
  arith,
  length-collect xs q,
  length-collect xs (record { pending = q.pending ++ x ∷ []; seen = mark x.guid q.seen }),
  length-append q.pending (x ∷ []),
)

has-without :
    (g : String) (s : Seen) (xs : List Item) → has g (without s xs) ≡ (has g xs && not (s g))
unfolding has without
has-without g s [] = refl
has-without g s (x ∷ xs) = ground (arith, has-without g s xs, ap s)

without-Distinct : (s : Seen) (xs : List Item) → Distinct xs → Distinct (without s xs)
unfolding without has
without-Distinct s [] d = tt
without-Distinct s (x ∷ xs) d = ground (arith, without-Distinct s xs d.1, has-without x.guid s xs)

pub firsts-Distinct : (xs : List Item) → Distinct (firsts xs)
unfolding firsts
firsts-Distinct [] = tt
firsts-Distinct (x ∷ xs) = (
  ground (arith, has-without x.guid (mark x.guid unseen) (firsts xs)),
  without-Distinct (mark x.guid unseen) (firsts xs) (firsts-Distinct xs),
)

-- Nothing is lost: a GUID that comes in goes out.
pub has-firsts : (g : String) (xs : List Item) → has g (firsts xs) ≡ has g xs
unfolding firsts has
has-firsts g [] = refl
has-firsts g (x ∷ xs) =
    ground (arith, has-firsts g xs, has-without g (mark x.guid unseen) (firsts xs))
