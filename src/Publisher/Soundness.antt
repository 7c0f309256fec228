-- ===== src/Publisher/Soundness.antt =====
-- What the publisher keeps of its channels.
use mathlib.Core.Path.{subst}
use mathlib.Core.Option.{some-injective}
use awesome_patterns.Base.{
  ℕ, zero, suc, ◌+◌, ◌≡◌, refl, sym, ap, ◌∙◌, Bool, true, false, not, List, [], ◌∷◌, ◌++◌, some,
  arith, All, if◌then◌else◌, get_elem?, set, ℕ_discrete, get_elem?-set_self, get_elem?-set_other,
}
use awesome_patterns.Channel.{make}
use awesome_patterns.Publisher.{
  TopicFunc, Subscriber, SendPc, sending, done, Publisher, is_free, closed, close_all, goroutines,
  accepts,
}

module _ {A : Type 0} where
  -- A channel is closed just if it is out of the map, and has only values that its topic accepts.
  pub record IsSound (s : Subscriber A) : Type 0 where
    pub open_ : s.registered ≡ not s.chan.closed
    pub accepted : All (λ v. accepts s.topic v ≡ true) s.chan.buffer

  abbrev pub Live : List (Subscriber A) → SendPc A → Type 0
  Live ss (sending i v) = (s : Subscriber A) × (get_elem? ss i ≡ some s) × (s.registered ≡ true)
  Live ss done = Unit

  pub record Inv (p : Publisher A) : Type 0 where
    pub each : (i : ℕ) (s : Subscriber A) → get_elem? p.subscribers i ≡ some s → IsSound s
    pub live : (k : ℕ) (c : SendPc A) → get_elem? p.sends k ≡ some c → Live p.subscribers c

  pub none-Live :
      (ss : List (Subscriber A)) (cs : List (SendPc A))
      → is_free cs ≡ true
      → (k : ℕ) (c : SendPc A) → get_elem? cs k ≡ some c
      → Live ss c
  unfolding is_free
  none-Live ss [] f k c e = cc
  none-Live ss (done ∷ cs) f zero c e = subst (Live ss) (some-injective _ _ e) tt
  none-Live ss (done ∷ cs) f (suc k) c e = none-Live ss cs f k c e
  none-Live ss (sending i v ∷ cs) f k c e = cc

  pub snoc-All : (P : A → Type 0) (xs : List A) (x : A) → All P xs → P x → All P (xs ++ x ∷ [])
  snoc-All P [] x h p = (p, tt)
  snoc-All P (y ∷ xs) x h p = (h.0, snoc-All P xs x h.1 p)

  pub rest-All : (P : A → Type 0) (x : A) (xs ys : List A) → ys ≡ x ∷ xs → All P ys → All P xs
  rest-All P x xs ys e h = (subst (All P) e h).1

  pub new-IsSound :
      (n : ℕ) (topic : TopicFunc A)
      → IsSound (record { chan = make n; topic = topic; registered = true })
  new-IsSound n topic = record { open_ = refl; accepted = tt }

  pub closed-IsSound : (s : Subscriber A) → IsSound s → IsSound (closed s)
  unfolding closed
  closed-IsSound s h = record { open_ = refl; accepted = h.accepted }

  -- A change of a subscriber that leaves it in the map.
  pub changed-Live :
      (ss : List (Subscriber A)) (i : ℕ) (old new : Subscriber A)
      → get_elem? ss i ≡ some old
      → old.registered ≡ new.registered
      → (c : SendPc A) → Live ss c
      → Live (set ss i new) c
  changed-Live ss i old new e r done h = tt
  changed-Live ss i old new e r (sending j v) (s, f, g) = elim (ℕ_discrete i j) [
    | yes q ↦ (
      new,
      ap (get_elem? (set ss i new)) (sym q) ∙ get_elem?-set_self ss i new e,
      ground (arith, e, f, q, r, g),
    )
    | no q ↦ (s, get_elem?-set_other ss i j new q ∙ f, g)
  ]

  first_or_rest :
      (all : List (Subscriber A)) (i : ℕ) (s : Subscriber A) (v : A) (rest : List (SendPc A))
      → get_elem? all i ≡ some s
      → ((k : ℕ) (c : SendPc A) → get_elem? rest k ≡ some c → Live all c)
      → (b : Bool) → s.registered ≡ b
      → (k : ℕ) (c : SendPc A) → get_elem? (if b then sending i v ∷ rest else rest) k ≡ some c
      → Live all c
  first_or_rest all i s v rest f h false r k c e = h k c e
  first_or_rest all i s v rest f h true r zero c e =
      subst (Live all) (some-injective _ _ e) (s, f, r)
  first_or_rest all i s v rest f h true r (suc k) c e = h k c e

  pub goroutines-Live :
      (all : List (Subscriber A)) (i : ℕ) (ss : List (Subscriber A)) (v : A)
      → ((m : ℕ) → get_elem? all (m + i) ≡ get_elem? ss m)
      → (k : ℕ) (c : SendPc A) → get_elem? (goroutines i ss v) k ≡ some c
      → Live all c
  unfolding goroutines
  goroutines-Live all i [] v h k c e = cc
  goroutines-Live all i (s ∷ ss) v h k c e =
      first_or_rest all i s v (goroutines (suc i) ss v) (ap (get_elem? all) (omega arith) ∙ h 0)
        (goroutines-Live all (suc i) ss v
          (λ m. ap (get_elem? all) {x = m + suc i} {y = suc m + i} (omega arith) ∙ h (suc m)))
        s.registered refl k c e

  -- `Close` takes every subscriber out of the map and closes its channel.
  abbrev pub shut : Subscriber A → Subscriber A
  shut s = if s.registered then closed s else s

  abbrev pub shut_all : List (Subscriber A) → List (Subscriber A)
  shut_all [] = []
  shut_all (s ∷ ss) = shut s ∷ shut_all ss

  either-IsSound :
      (b : Bool) (s t : Subscriber A) → IsSound s → IsSound t → IsSound (if b then s else t)
  either-IsSound true s t h g = h
  either-IsSound false s t h g = g

  shut-IsSound : (s : Subscriber A) → IsSound s → IsSound (shut s)
  shut-IsSound s h = either-IsSound s.registered (closed s) s (closed-IsSound s h) h

  pub close_all-shut_all :
      (ss : List (Subscriber A))
      → ((i : ℕ) (s : Subscriber A) → get_elem? ss i ≡ some s → IsSound s)
      → close_all ss ≡ some (shut_all ss)
  unfolding close_all closed
  close_all-shut_all [] h = refl
  close_all-shut_all (s ∷ ss) h =
      ground (arith, close_all-shut_all ss (λ i. h (suc i)), (h 0 s refl).open_)

  pub shut_all-IsSound :
      (ss : List (Subscriber A))
      → ((i : ℕ) (s : Subscriber A) → get_elem? ss i ≡ some s → IsSound s)
      → (i : ℕ) (s : Subscriber A) → get_elem? (shut_all ss) i ≡ some s
      → IsSound s
  shut_all-IsSound [] h i s e = cc
  shut_all-IsSound (t ∷ ss) h zero s e =
      subst IsSound (some-injective _ _ e) (shut-IsSound t (h 0 t refl))
  shut_all-IsSound (t ∷ ss) h (suc i) s e = shut_all-IsSound ss (λ j. h (suc j)) i s e
