-- ===== src/WorkPool/Examples.antt =====
-- A pool with one routine and room for one item of work: item 7 is accepted and taken.
use awesome_patterns.Base.{◌+◌, ◌≡◌, refl, [], ◌∷◌, arith, total, count}
use awesome_patterns.WorkPool.{
  WorkPool, Reach, start, later, new, step, post_work, queue_step, shutdown_step, waiting, received,
  pushing, confirming, stopped, idle, awaiting, not_called, silent, accepted, moves,
}
use awesome_patterns.WorkPool.Queueing.{push_never_blocks}
use awesome_patterns.WorkPool.Accounting.{
  work_accounted, acceptances, performances, unconfirmed, has_work,
}

abbrev idle_pool : WorkPool
idle_pool = record {
  queue = waiting;
  workers = idle ∷ [];
  shutdown = not_called;
  work_channel = [];
  queued_work = 0;
  active_routines = 0;
  queue_capacity = 1;
  wait_group = 1;
}

abbrev pushing_pool : WorkPool
pushing_pool = record idle_pool { queue = pushing 7; queued_work = 1 }

pushed : Reach 1 1 pushing_pool (silent ∷ silent ∷ silent ∷ [])
unfolding new step
pushed = later (later (later (start refl) (post_work 7) refl) queue_step refl) queue_step refl

abbrev full_pool : WorkPool
full_pool = record idle_pool { queue = received 8; queued_work = 1; work_channel = 7 ∷ [] }

posted_again : Reach 1 1 full_pool (silent ∷ accepted 7 ∷ silent ∷ silent ∷ silent ∷ silent ∷ [])
unfolding step
posted_again = later (later (later pushed queue_step refl) queue_step refl) (post_work 8) refl

push_never_blocks_example :
    step pushing_pool queue_step
    ≡ moves (record pushing_pool { queue = confirming 7; work_channel = 7 ∷ [] }) silent
push_never_blocks_example = push_never_blocks (omega arith) (omega arith) pushed 7 refl

work_accounted_example :
    acceptances 7 (silent ∷ accepted 7 ∷ silent ∷ silent ∷ silent ∷ silent ∷ [])
      + unconfirmed 7 full_pool.queue
    ≡ count 7 full_pool.work_channel
      + total (has_work 7) full_pool.workers
      + performances 7 (silent ∷ accepted 7 ∷ silent ∷ silent ∷ silent ∷ silent ∷ [])
work_accounted_example = work_accounted posted_again 7

abbrev awaiting_pool : WorkPool
awaiting_pool = record idle_pool { queue = stopped; shutdown = awaiting }

shut : Reach 1 1 awaiting_pool (silent ∷ silent ∷ silent ∷ [])
unfolding new step
shut = later (later (later (start refl) shutdown_step refl) shutdown_step refl) shutdown_step refl
