-- ===== src/Lib.antt =====
-- Verification of awesome-patterns, a collection of Go programs that each show one pattern of
-- design or of concurrency. The programs are independent of each other; those with state,
-- goroutines or error paths of their own are modelled here.
--
-- The parts, and the files that model them (paths from the repository's root):
-- - Base, with Base/Tests, Lists, Counts, Runs, Text and Int: what all modules share. Base/Int has the
--   integers with a sign on the native numbers, Base/Runs the runs of a step relation that come to an
--   end.
-- - Channel: Go's buffered channels in a `select` with a default, for ResourcePool, Semaphore,
--   Command, Gather, Fanout, Publisher, Barrier, SyncWait and Requests. Base/Counts counts the
--   goroutines at a place of their code.
-- - FeedReader: concurrency/feedreader/main.go. FeedReader has `Item` and `fetchResult`;
--   FeedReader/Items the set `seen`, with `collect`, the loop that appends what was not seen;
--   FeedReader/Sub is `sub.loop`, FeedReader/Sync the five simpler loops, FeedReader/Deduper is
--   `deduper.loop` and `NaiveDedupe`, FeedReader/Merge is `Merge` and its `Close`, and
--   FeedReader/NaiveMerge is `NaiveMerge` and its `Close`.
-- - ResourcePool: concurrency/pool/main.go, `Pool`.
-- - WorkPool: workerpool/ardan_labs_worker_pool/worker_pool.go, `WorkPool` with its goroutines.
-- - TaskPool: workerpool/main.go, `Pool` with its tasks. UnbufferedPool:
--   concurrency/worker_unbuffed/main.go, `Pool` with any number of calls of `Run`.
-- - Fanout: messaging/fanout.go. Fanout/Worker is `worker` with all goroutines of its `stream`,
--   Fanout/Pipeline is `Pipeline` with its sixteen workers.
-- - BoundedDigest: concurrency/bounded/bounded_parallelism.go, `MD5All` with the goroutine of
--   `walkFiles` and the twenty of `digester`. ParallelDigest: concurrency/parallelism.go, the same with
--   a goroutine for each file; it takes the visits and results of BoundedDigest.
-- - Stages: concurrency/pipeline/pipeline_from_book/main.go, `generator`, `multiply` and `add` in any
--   pipeline, with the loop over it. FanInOut: messaging/fan_in_out/main.go, `gen`, any number of `sq`,
--   and `merge`.
-- - Barrier: concurrency/barrier/n_barrier/main.go, `ChanBarrier`. Requests:
--   concurrency/barrier/main.go, `barrier` and `makeRequest`. StatusCheck:
--   concurrency/iterator/iterator_error_handling/main.go, `v2`. SyncWait:
--   concurrency/waitgroup/error_handling.go, `syncWaitWithErrorHandling`.
-- - Publisher: channel/pubsub/main.go, `Publisher` with the goroutines of `sendTopic`.
-- - Runner: concurrency/runner/main.go. Deadline: stability/deadline/deadline.go. Semaphore:
--   concurrency/semaphore/main.go. Command: behavioral/command/main.go.
-- - Gather: concurrency/subtasks/divide_and_conquer/divide_and_conquer.go. Gather has the outcomes, the
--   sends and the gathering loop on what arrives; Gather/Network is `DivideAndConquer` with all its
--   goroutines. Fetchers: concurrency/subtasks/fetchers/fetchers.go, on Gather/Network.
-- - Patterns: PlayerState is behavioral/state/problem.go, Seesaw behavioral/state/main.go, Memento
--   behavioral/memento/main.go, Registry behavioral/registry/registry.go, Proxy
--   structural/proxy/main.go, Memoize functions/fibonacci.go, Composite structural/composite/main.go,
--   Bridge structural/bridge/main.go, Visitor behavioral/visitor/main.go, Facade
--   structural/facade/main.go, GameSelector behavioral/chain_of_responsibility/main.go, Builder
--   creational/builder/builder/main.go, Mediator behavioral/mediator/main.go.
--
-- How state and operations correspond to the code. A struct, or the variables of a goroutine, are a
-- record; the place at which a goroutine waits is a data type. A case of a `select` is an argument of
-- `step`, which is `none` or `blocked` where the case is not enabled, and `panics` where Go panics. A
-- run is a sequence of steps in any order that the guards allow, so that every interleaving of the
-- goroutines is covered. A send on a channel without a buffer and its receive are one step. The
-- results of interfaces and functions that the caller supplies (Fetch, the factory, the work) and
-- the clock are inputs of the step; nothing is assumed of them.
--
-- Bounds. Times are nanoseconds from the zero time, without the overflow of `time.Duration`. The
-- counters of the work pool and the idle counter of `stream` wrap at 2 ^ 32; the work pool's
-- capacity and number of routines are below 2 ^ 31.
-- Player health is a 64-bit integer in two's complement; an int of Stages and FanInOut is its 64-bit
-- word, on which `*` is the product modulo 2 ^ 64. Loops recurse on the list that
-- they traverse, and goroutines are step relations. Fuel is used in one definition: `flush_all` of
-- ResourcePool/Ownership takes the number of passes of the loop of `Close`, one for each resource in
-- the channel and one more.
--
-- Not modelled: logging, printing other than as values, and sleeping; the fetchers of the
-- feed reader, the programs that only demonstrate a language feature, and what stands on packages
-- outside the repository (rss, uuid, zap, context), whose results are inputs where they matter.
pub mod Base
pub mod BoundedDigest
pub mod Channel
pub mod FeedReader
pub mod ResourcePool
pub mod WorkPool
pub mod Patterns
pub mod Runner
pub mod Semaphore
pub mod Deadline
pub mod Command
pub mod Gather
pub mod Fanout
pub mod TaskPool
pub mod UnbufferedPool
pub mod ParallelDigest
pub mod Stages
pub mod Barrier
pub mod SyncWait
pub mod FanInOut
pub mod Fetchers
pub mod Requests
pub mod StatusCheck
pub mod Publisher
