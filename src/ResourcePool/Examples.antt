-- ===== src/ResourcePool/Examples.antt =====
-- A pool of size 1: two resources are made and one is put back; then `Close`.
use awesome_patterns.Base.{◌+◌, ◌≡◌, ◌≢◌, refl, true, false, [], ◌∷◌, arith, ℕ_discrete}
use awesome_patterns.Channel.{try_send, try_receive}
use awesome_patterns.ResourcePool.{
  Pool, Ledger, Reach, start, later, resource, call_acquire, call_release, call_close, given, step,
  new, panics, enter, created, put_back,
}
use awesome_patterns.ResourcePool.Invariant.{count, pool_never_panics}
use awesome_patterns.ResourcePool.Ownership.{resources_balanced}

abbrev opened : Pool
opened = record {
  resources = record { buffer = []; capacity = 1; closed = false };
  closed = false;
  locked = false;
}

abbrev no_ledger : Ledger
no_ledger = record { made = λ x. 0; held = λ x. 0; shut = λ x. 0 }

abbrev ledger : Ledger
ledger =
    enter (put_back 8) (given (call_release 8) (enter (created 9) (enter (created 8) no_ledger)))

abbrev stocked : Pool
stocked = record opened { resources = record { buffer = 8 ∷ []; capacity = 1; closed = false } }

stocked_reach : Reach 1 stocked ledger
unfolding new step try_receive try_send ℕ_discrete
stocked_reach =
    later
      (later (later (start refl refl) (call_acquire (resource 8)) tt refl)
        (call_acquire (resource 9)) tt refl)
      (call_release 8) (omega arith) refl

abbrev closing : Pool
closing = record {
  resources = record { buffer = 8 ∷ []; capacity = 1; closed = true };
  closed = true;
  locked = true;
}

closing_reach : Reach 1 closing ledger
unfolding step
closing_reach = later stocked_reach call_close tt refl

pool_never_panics_example : step closing (call_release 9) ≢ panics
pool_never_panics_example = pool_never_panics closing_reach (call_release 9)

resources_balanced_example :
    ledger.made 8 ≡ count 8 stocked.resources.buffer + ledger.held 8 + ledger.shut 8
resources_balanced_example = resources_balanced stocked_reach 8
