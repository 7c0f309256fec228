-- ===== src/Patterns/Mediator.antt =====
-- behavioral/mediator/main.go: buyers whose bids a mediator compares. All buyers have one mediator,
-- so that a buyer is its name; prices are not negative, as in `main`.
pub mod Laws
use awesome_patterns.Base.{
  ℕ, ◌<◌, String, List, [], ◌∷◌, Option, none, some, Bool, true, false, ite, string_discrete, ltb,
  if◌then◌else◌,
}

pub record Mediator : Type 0 where
  pub buyers : String → Option ℕ
  pub max_price : ℕ
  pub max_price_buyer : String

-- The mediator of `main`.
pub new_mediator : Mediator
new_mediator = record { buyers = λ k. none; max_price = 0; max_price_buyer = "" }

-- `if v > m.MaxPrice { … }` for a buyer in the map
pub compare_price : Mediator → String → Option ℕ → Mediator
compare_price m k none = m
compare_price m k (some v) =
    if ltb m.max_price v then record m { max_price = v; max_price_buyer = k } else m

-- `for k, v := range m.Buyers`, with the order in which the map gives its keys.
pub scan : Mediator → List String → Mediator
unfolding compare_price
scan m [] = m
scan m (k ∷ ks) = scan (compare_price m k (m.buyers k)) ks

-- `m.Buyers[b] = price`
pub put : Mediator → String → ℕ → Mediator
put m b price = record m { buyers = λ k. ite (string_discrete b k) (some price) (m.buyers k) }

-- The mediator behind the call, and what the call returns.
pub is_max_price : Mediator → List String → String → ℕ → Mediator × ℕ × Bool
unfolding scan put
is_max_price m order b price =
    let q = scan (put m b price) order in
    ite (string_discrete b m.max_price_buyer) (m, m.max_price, true)
      (q, price, ite (string_discrete b q.max_price_buyer) true false)
