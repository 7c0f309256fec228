-- ===== src/Deadline/Examples.antt =====
-- Runs of `Run` with a late worker.
use awesome_patterns.Base.{refl, true, [], ◌∷◌, none, some}
use awesome_patterns.Deadline.{
  Deadline, timed_out, selecting, finish_work, expire, step, Reach, start, later,
}

abbrev late : Deadline
late = record { worker = selecting none; result = some timed_out; stopper_closed = true }

late-Reach : Reach late (finish_work none ∷ expire ∷ [])
unfolding step
late-Reach = later (later (start refl) expire refl) (finish_work none) refl
