-- ===== src/Patterns/Facade.antt =====
-- structural/facade/main.go: one call that buys from three shops.
use awesome_patterns.Base.{String, Option, none, some}

abbrev pub Error : Type 0
Error = Option String

-- A shop, by the result of its `Sell`.
pub data Shop : Type 0 where
  egg_shop milk_shop wheat_flour_shop : Shop

pub sell : Shop → Error
sell egg_shop = some "no more eggs left"
sell milk_shop = some "no more milk left"
sell wheat_flour_shop = some "no more wheat flour left"

pub record DealerFacade : Type 0 where
  pub eg_shop : Shop
  pub mk_shop : Shop
  pub wf_shop : Shop

-- All three sell, or the three errors are printed.
pub data Bought : Type 0 where
  success : Bought
  failure : Error → Error → Error → Bought

pub bought : Error → Error → Error → Bought
bought none none none = success
bought e1 e2 e3 = failure e1 e2 e3

pub buy_all : DealerFacade → Bought
unfolding sell bought
buy_all d = bought (sell d.eg_shop) (sell d.mk_shop) (sell d.wf_shop)
