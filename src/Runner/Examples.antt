-- ===== src/Runner/Examples.antt =====
-- A timeout.
use awesome_patterns.Base.{refl, none, some}
use awesome_patterns.Runner.{received_timeout, Started, running, step}
use awesome_patterns.Runner.Laws.{IsStranded, timed_out-IsStranded}

abbrev waiting : Started
waiting = record { goroutine = running; result = none }

timed_out-IsStranded_example :
    IsStranded (record { goroutine = running; result = some (some received_timeout) })
unfolding step
timed_out-IsStranded_example = (timed_out-IsStranded waiting).0 (λ e. cc) refl
