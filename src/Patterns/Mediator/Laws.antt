-- ===== src/Patterns/Mediator/Laws.antt =====
-- Bids, and the price and the buyer in the lead.
use mathlib.Core.Path.{subst}
use mathlib.Core.Option.{some-injective}
use mathlib.Core.Logic.{if_pos, if_neg}
use awesome_patterns.Base.{
  dec_lt, ℕ, ◌<◌, ◌≤◌, ◌≡◌, ◌≢◌, ◌⊎◌, inl, inr, refl, sym, ap, ◌∙◌, String, List, [], ◌∷◌, Option,
  none, some, Bool, true, false, ite, string_discrete, ltb, if◌then◌else◌, arith,
}
use awesome_patterns.Patterns.Mediator.{
  Mediator, new_mediator, compare_price, scan, put, is_max_price,
}

-- No price in the map is higher than the highest one.
abbrev pub IsBounded : Mediator → Type 0
IsBounded m = (k : String) (v : ℕ) → m.buyers k ≡ some v → v ≤ m.max_price

-- The map gives the key.
abbrev pub IsVisited : String → List String → Type 0
IsVisited b [] = ⊥
IsVisited b (k ∷ ks) = (b ≡ k) ⊎ IsVisited b ks

compare_price-IsBounded :
    (m : Mediator) (k : String) (o : Option ℕ)
    → ((v : ℕ) → o ≡ some v → v ≤ m.max_price)
    → compare_price m k o ≡ m
unfolding compare_price
compare_price-IsBounded m k none h = refl
compare_price-IsBounded m k (some v) h = ground (arith, h v refl)

-- Where no price is higher, a pass over the map changes nothing.
scan-IsBounded : (m : Mediator) (ks : List String) → IsBounded m → scan m ks ≡ m
unfolding scan
scan-IsBounded m [] h = refl
scan-IsBounded m (k ∷ ks) h =
    ap (λ q. scan q ks) (compare_price-IsBounded m k (m.buyers k) (h k)) ∙ scan-IsBounded m ks h

-- A mediator after a bid of a buyer.
abbrev pub led : Mediator → String → ℕ → Mediator
led m b price = record (put m b price) { max_price = price; max_price_buyer = b }

put-get : (m : Mediator) (b : String) (price : ℕ) → (put m b price).buyers b ≡ some price
unfolding put
put-get m b price =
    elim (string_discrete b b) as (λ d. ite d (some price) (m.buyers b) ≡ some price) [
      | yes e ↦ refl
      | no n ↦ absurd (n refl)
    ]

put-other :
    (m : Mediator) (b : String) (price : ℕ) (k : String)
    → b ≢ k
    → (put m b price).buyers k ≡ m.buyers k
unfolding put
put-other m b price k h =
    elim (string_discrete b k) as (λ d. ite d (some price) (m.buyers k) ≡ m.buyers k) [
      | yes e ↦ absurd (h e)
      | no n ↦ refl
    ]

-- What the map has behind a bid: the bid, or a price that it had before.
put-cases :
    (m : Mediator) (b : String) (price : ℕ) (k : String) (v : ℕ)
    → (put m b price).buyers k ≡ some v
    → (v ≡ price) ⊎ (m.buyers k ≡ some v)
put-cases m b price k v h = elim (string_discrete b k) [
  | yes e ↦ inl (some-injective _ _ (sym h ∙ ap (put m b price).buyers (sym e) ∙ put-get m b price))
  | no n ↦ inr (sym (put-other m b price k n) ∙ h)
]

low_bid-IsBounded :
    (m : Mediator) (b : String) (price : ℕ)
    → IsBounded m
    → price ≤ m.max_price
    → IsBounded (put m b price)
unfolding put
low_bid-IsBounded m b price h l k v e = elim (put-cases m b price k v e) [
  | inl q ↦ omega (arith, q, l)
  | inr q ↦ h k v q
]

led-IsBounded :
    (m : Mediator) (b : String) (price : ℕ)
    → IsBounded m
    → m.max_price < price
    → IsBounded (led m b price)
led-IsBounded m b price h l k v e = elim (put-cases m b price k v e) [
  | inl q ↦ omega (arith, q)
  | inr q ↦ omega (arith, h k v q, l)
]

met_bid :
    (m : Mediator) (b : String) (price : ℕ) (k : String)
    → m.max_price < price
    → (put m b price).buyers k ≡ some price
    → b ≡ k
    → compare_price (put m b price) k ((put m b price).buyers k) ≡ led m b price
unfolding compare_price put
met_bid m b price k l f e = ground (arith, f, l, e)

put-max : (m : Mediator) (b : String) (price : ℕ) → m.max_price ≡ (put m b price).max_price
unfolding put
put-max m b price = refl

later_in : (b k : String) (ks : List String) → b ≢ k → IsVisited b (k ∷ ks) → IsVisited b ks
later_in b k ks n (inl e) = absurd (n e)
later_in b k ks n (inr i) = i

-- A pass that comes by a bid that is higher.
scan-led :
    (m : Mediator) (b : String) (price : ℕ) (ks : List String)
    → IsBounded m
    → m.max_price < price
    → IsVisited b ks
    → scan (put m b price) ks ≡ led m b price
unfolding scan
scan-led m b price [] h l i = absurd i
scan-led m b price (k ∷ ks) h l i = elim (string_discrete b k) [
  | yes e ↦
      ap (λ q. scan q ks)
        (met_bid m b price k l (ap (put m b price).buyers (sym e) ∙ put-get m b price) e)
      ∙ scan-IsBounded (led m b price) ks (led-IsBounded m b price h l)
  | no n ↦
      ap (λ q. scan q ks)
        (compare_price-IsBounded (put m b price) k ((put m b price).buyers k) (λ v e.
          subst (λ x. v ≤ x) (put-max m b price) (h k v (sym (put-other m b price k n) ∙ e))))
      ∙ scan-led m b price ks h l (later_in b k ks n i)
]

-- What a call returns behind its pass over the map.
abbrev answer : String → ℕ → Mediator → Mediator × ℕ × Bool
answer b price q = (q, price, ite (string_discrete b q.max_price_buyer) true false)

behind_pass :
    (m : Mediator) (order : List String) (b : String) (price : ℕ)
    → b ≢ m.max_price_buyer
    → is_max_price m order b price ≡ answer b price (scan (put m b price) order)
unfolding is_max_price
behind_pass m order b price n = if_neg (string_discrete b m.max_price_buyer) n _ _

leading :
    (m : Mediator) (order : List String) (b : String) (price : ℕ)
    → b ≡ m.max_price_buyer
    → is_max_price m order b price ≡ (m, m.max_price, true)
unfolding is_max_price
leading m order b price e = if_pos (string_discrete b m.max_price_buyer) e _ _

-- A bid of a buyer who is not in the lead, where it is the highest.
high_bid :
    (m : Mediator) (order : List String) (b : String) (price : ℕ)
    → IsBounded m
    → IsVisited b order
    → b ≢ m.max_price_buyer
    → m.max_price < price
    → is_max_price m order b price ≡ (led m b price, price, true)
high_bid m order b price h i n l =
    behind_pass m order b price n
    ∙ ap (answer b price) (scan-led m b price order h l i)
    ∙ ap (λ x. (led m b price, price, x)) (if_pos (string_discrete b b) refl true false)

low_bid :
    (m : Mediator) (order : List String) (b : String) (price : ℕ)
    → IsBounded m
    → b ≢ m.max_price_buyer
    → price ≤ m.max_price
    → is_max_price m order b price ≡ (put m b price, price, false)
unfolding put
low_bid m order b price h n l =
    behind_pass m order b price n
    ∙ ap (answer b price) (scan-IsBounded (put m b price) order (low_bid-IsBounded m b price h l))
    ∙ ap (λ x. (put m b price, price, x))
        (if_neg (string_discrete b m.max_price_buyer) n true false)

-- Whatever the order in which the map gives its keys, if it gives the bidder's: a bid of a buyer who
-- is not in the lead is recorded, and takes the lead just if it is higher than the highest price,
-- which is what the call returns.
is_max_price_lem :
    (m : Mediator) (order : List String) (b : String) (price : ℕ)
    → IsBounded m
    → IsVisited b order
    → b ≢ m.max_price_buyer
    → is_max_price m order b price ≡ (
        if ltb m.max_price price
        then (led m b price, price, true)
        else (put m b price, price, false))
is_max_price_lem m order b price h i n = elim (dec_lt m.max_price price) [
  | yes l ↦ ground (arith, l, high_bid m order b price h i n l)
  | no l ↦ ground (arith, l, low_bid m order b price h n (omega (arith, l)))
]

-- The highest price is 0, or what the buyer in the lead has bid.
abbrev pub IsLed : Mediator → Type 0
IsLed m = IsBounded m × ((m.max_price ≡ 0) ⊎ (m.buyers m.max_price_buyer ≡ some m.max_price))

pub new_mediator-IsLed : IsLed new_mediator
unfolding new_mediator
new_mediator-IsLed = (λ k v e. cc, inl refl)

kept_lead :
    (m : Mediator) (b : String) (price : ℕ)
    → b ≢ m.max_price_buyer
    → (m.max_price ≡ 0) ⊎ (m.buyers m.max_price_buyer ≡ some m.max_price)
    → ((put m b price).max_price ≡ 0)
      ⊎ ((put m b price).buyers (put m b price).max_price_buyer ≡ some (put m b price).max_price)
unfolding put
kept_lead m b price n (inl e) = inl e
kept_lead m b price n (inr e) = inr (put-other m b price m.max_price_buyer n ∙ e)

-- A bid keeps it that no price in the map is higher than the highest price, and that the buyer in
-- the lead has bid the highest price, if it is not 0.
is_max_price-IsLed :
    (m : Mediator) (order : List String) (b : String) (price : ℕ)
    → IsLed m
    → IsVisited b order
    → IsLed (is_max_price m order b price).0
unfolding is_max_price
is_max_price-IsLed m order b price h i = elim (string_discrete b m.max_price_buyer) [
  | yes e ↦ subst (λ r. IsLed r.0) (sym (leading m order b price e)) h
  | no n ↦ elim (dec_lt m.max_price price) [
    | yes l ↦
        subst (λ r. IsLed r.0) (sym (high_bid m order b price h.0 i n l))
          (led-IsBounded m b price h.0 l, inr (put-get m b price))
    | no l ↦
        subst (λ r. IsLed r.0) (sym (low_bid m order b price h.0 n (omega (arith, l))))
          (low_bid-IsBounded m b price h.0 (omega (arith, l)), kept_lead m b price n h.1)
  ]
]
