-- ===== src/FeedReader/Merge/Safety.antt =====
-- `Merge` does not panic.
use awesome_patterns.Base.{
  ℕ, zero, suc, ◌≡◌, refl, true, List, Option, none, some, arith, get_elem?, total, total-get_elem?,
  ◌≢◌,
}
use awesome_patterns.FeedReader.{Item, Error}
use awesome_patterns.FeedReader.Merge.{
  Forwarder, receiving, sending, reporting, done, Closer, not_called, collecting, returned, Merged,
  Action, receive, deliver, quit_sub, report, call_close, finish_close, panics, on_receive,
  on_deliver, on_quit, on_report, collect_error, on_call, on_finish, step, Reach,
}
use awesome_patterns.FeedReader.Merge.Invariant.{active, Agrees, Reach-Inv}

on_deliver-safe :
    (m : Merged) (i : ℕ) (o : Option Forwarder)
    → get_elem? m.subs i ≡ o
    → (m.updates_closed ≡ true → total active m.subs ≡ 0)
    → on_deliver m i o ≢ panics
unfolding on_deliver
on_deliver-safe m i (some (sending it)) e f h = ground (arith, total-get_elem? active m.subs i e)
on_deliver-safe m i (some receiving) e f h = cc
on_deliver-safe m i (some (reporting _)) e f h = cc
on_deliver-safe m i (some done) e f h = cc
on_deliver-safe m i none e f h = cc

closed-inactive :
    (c : Closer) (m : Merged) → Agrees c m → m.updates_closed ≡ true → total active m.subs ≡ 0
closed-inactive not_called m a h = cc
closed-inactive (collecting k) m a h = cc
closed-inactive returned m a h = a.2

on_receive-safe :
    (m : Merged) (i : ℕ) (it : Item) (o : Option Forwarder) → on_receive m i it o ≢ panics
unfolding on_receive
on_receive-safe m i it (some receiving) h = cc
on_receive-safe m i it (some (sending _)) h = cc
on_receive-safe m i it (some (reporting _)) h = cc
on_receive-safe m i it (some done) h = cc
on_receive-safe m i it none h = cc

on_quit-safe :
    (m : Merged) (i : ℕ) (e : Option Error) (o : Option Forwarder) → on_quit m i e o ≢ panics
unfolding on_quit
on_quit-safe m i e (some receiving) h = ground arith
on_quit-safe m i e (some (sending _)) h = ground arith
on_quit-safe m i e (some (reporting _)) h = cc
on_quit-safe m i e (some done) h = cc
on_quit-safe m i e none h = cc

collect_error-safe :
    (m : Merged) (i : ℕ) (e : Option Error) (c : Closer) → collect_error m i e c ≢ panics
unfolding collect_error
collect_error-safe m i e (collecting (suc k)) h = cc
collect_error-safe m i e (collecting zero) h = cc
collect_error-safe m i e not_called h = cc
collect_error-safe m i e returned h = cc

on_report-safe : (m : Merged) (i : ℕ) (o : Option Forwarder) → on_report m i o ≢ panics
unfolding on_report
on_report-safe m i (some (reporting e)) h = collect_error-safe m i e m.closer h
on_report-safe m i (some receiving) h = cc
on_report-safe m i (some (sending _)) h = cc
on_report-safe m i (some done) h = cc
on_report-safe m i none h = cc

on_finish-safe : (m : Merged) (c : Closer) → on_finish m c ≢ panics
unfolding on_finish
on_finish-safe m (collecting zero) h = cc
on_finish-safe m (collecting (suc _)) h = cc
on_finish-safe m not_called h = cc
on_finish-safe m returned h = cc

-- Whatever the goroutines and the subscriptions do, no step panics while `Close` is called at most
-- once; in particular no goroutine sends on `updates` after `Close` has closed it.
pub merge_never_panics :
    {n : ℕ} {m : Merged} {acts : List Action}
    → Reach n m acts
    → (a : Action) → ((a ≡ call_close) → m.closer ≡ not_called)
    → step m a ≢ panics
unfolding step on_call
merge_never_panics {m = m} r (receive i it) once h = on_receive-safe m i it (get_elem? m.subs i) h
merge_never_panics {m = m} r (deliver i) once h =
    on_deliver-safe m i _ refl (closed-inactive m.closer m (Reach-Inv r).agrees) h
merge_never_panics {m = m} r (quit_sub i e) once h = on_quit-safe m i e (get_elem? m.subs i) h
merge_never_panics {m = m} r (report i) once h = on_report-safe m i (get_elem? m.subs i) h
merge_never_panics r call_close once h = ground (arith, once refl)
merge_never_panics {m = m} r finish_close once h = on_finish-safe m m.closer h
