-- ===== src/FeedReader/Merge/Errors.antt =====
-- The error that `Close` of the merged subscription returns.
use mathlib.Core.Path.{subst}
use awesome_patterns.Base.{
  ℕ, zero, suc, ◌+◌, ◌≤◌, ◌<◌, ◌≡◌, refl, ap, List, [], ◌∷◌, Option, none, some, arith, get_elem?,
  total, total-set, total-replicate,
}
use awesome_patterns.FeedReader.{Item, Error}
use awesome_patterns.FeedReader.Merge.{
  Forwarder, receiving, sending, reporting, done, Closer, not_called, collecting, returned, Merged,
  merge, Action, receive, deliver, quit_sub, report, call_close, finish_close, moves, on_receive,
  on_deliver, on_quit, on_report, collect_error, on_call, on_finish, move, step, Reach, start,
  later,
}
use awesome_patterns.FeedReader.Merge.Invariant.{active, Agrees, Reach-Inv}

-- 1 for an error that is not nil.
abbrev pub is_failure : Option Error → ℕ
is_failure none = 0
is_failure (some e) = 1

-- The subscriptions whose `Close` failed, in a history.
abbrev pub failures : List Action → ℕ
failures [] = 0
failures (quit_sub i e ∷ acts) = is_failure e + failures acts
failures (_ ∷ acts) = failures acts

-- A failure that `Close` has still to receive.
abbrev unreported : Forwarder → ℕ
unreported (reporting e) = is_failure e
unreported _ = 0

-- While `err` is nil the failures of the history are those still to be received.
record Tally (f : ℕ) (m : Merged) : Type 0 where
  none_lost : is_failure m.err ≡ 0 → f ≡ total unreported m.subs
  one_seen : 0 < is_failure m.err → total unreported m.subs < f

turn-Tally :
    (f : ℕ) {f' : ℕ} (m : Merged) (i : ℕ) (p p' : Forwarder)
    → f' ≡ unreported p' + f
    → get_elem? m.subs i ≡ some p
    → unreported p ≡ 0
    → Tally f m
    → Tally f' (move m i p')
turn-Tally f m i p p' q e z v = record {
  none_lost = λ h. omega (arith, total-set unreported m.subs i p' e, v.none_lost h);
  one_seen = λ h. omega (arith, total-set unreported m.subs i p' e, v.one_seen h);
}

moves-Tally : (f : ℕ) (x : Merged) {m' : Merged} → moves x ≡ moves m' → Tally f x → Tally f m'
moves-Tally f x e w = subst (Tally f) (cc) w

module _ (f : ℕ) (m : Merged) (v : Tally f m) where
  on_receive-Tally :
      (i : ℕ) (it : Item) (o : Option Forwarder) {m' : Merged}
      → get_elem? m.subs i ≡ o
      → on_receive m i it o ≡ moves m'
      → Tally f m'
  unfolding on_receive
  on_receive-Tally i it (some receiving) e h =
      moves-Tally f _ h (turn-Tally f m i receiving (sending it) (omega arith) e refl v)
  on_receive-Tally i it (some (sending _)) e h = cc
  on_receive-Tally i it (some (reporting _)) e h = cc
  on_receive-Tally i it (some done) e h = cc
  on_receive-Tally i it none e h = cc

  on_deliver-Tally :
      (i : ℕ) (o : Option Forwarder) {m' : Merged}
      → get_elem? m.subs i ≡ o
      → on_deliver m i o ≡ moves m'
      → Tally f m'
  unfolding on_deliver
  on_deliver-Tally i (some (sending it)) e h =
      moves-Tally f (move m i receiving) (ground arith)
        (turn-Tally f m i (sending it) receiving (omega arith) e refl v)
  on_deliver-Tally i (some receiving) e h = cc
  on_deliver-Tally i (some (reporting _)) e h = cc
  on_deliver-Tally i (some done) e h = cc
  on_deliver-Tally i none e h = cc

  on_quit-Tally :
      (i : ℕ) (e : Option Error) (o : Option Forwarder) {m' : Merged}
      → get_elem? m.subs i ≡ o
      → on_quit m i e o ≡ moves m'
      → Tally (is_failure e + f) m'
  unfolding on_quit
  on_quit-Tally i e (some receiving) g h =
      moves-Tally (is_failure e + f) (move m i (reporting e)) (ground arith)
        (turn-Tally f m i receiving (reporting e) refl g refl v)
  on_quit-Tally i e (some (sending it)) g h =
      moves-Tally (is_failure e + f) (move m i (reporting e)) (ground arith)
        (turn-Tally f m i (sending it) (reporting e) refl g refl v)
  on_quit-Tally i e (some (reporting _)) g h = cc
  on_quit-Tally i e (some done) g h = cc
  on_quit-Tally i e none g h = cc

  collect_error-Tally :
      (i : ℕ) (e : Option Error) (c : Closer) {m' : Merged}
      → get_elem? m.subs i ≡ some (reporting e)
      → collect_error m i e c ≡ moves m'
      → Tally f m'
  unfolding collect_error
  collect_error-Tally i none (collecting (suc k)) g h = moves-Tally f _ h (record {
    none_lost = λ q. omega (arith, total-set unreported m.subs i done g, v.none_lost q);
    one_seen = λ q. omega (arith, total-set unreported m.subs i done g, v.one_seen q);
  })
  collect_error-Tally i (some e) (collecting (suc k)) g h = moves-Tally f _ h (record {
    none_lost = λ q. absurd (omega arith);
    one_seen = λ q. ground (arith, total-set unreported m.subs i done g, v.none_lost, v.one_seen);
  })
  collect_error-Tally i e (collecting zero) g h = cc
  collect_error-Tally i e not_called g h = cc
  collect_error-Tally i e returned g h = cc

  on_report-Tally :
      (i : ℕ) (o : Option Forwarder) {m' : Merged}
      → get_elem? m.subs i ≡ o
      → on_report m i o ≡ moves m'
      → Tally f m'
  unfolding on_report
  on_report-Tally i (some (reporting e)) g h = collect_error-Tally i e m.closer g h
  on_report-Tally i (some receiving) g h = cc
  on_report-Tally i (some (sending _)) g h = cc
  on_report-Tally i (some done) g h = cc
  on_report-Tally i none g h = cc

  same-Tally :
      (x : Merged) {m' : Merged} → x.subs ≡ m.subs → x.err ≡ m.err → moves x ≡ moves m' → Tally f m'
  same-Tally x a b h = moves-Tally f x h (record {
    none_lost = λ q. rw a (v.none_lost (rw b at q));
    one_seen = λ q. rw a (v.one_seen (rw b at q));
  })

  on_call-Tally : (c : Closer) {m' : Merged} → on_call m c ≡ moves m' → Tally f m'
  unfolding on_call
  on_call-Tally not_called h = same-Tally _ refl refl h
  on_call-Tally (collecting _) h = cc
  on_call-Tally returned h = cc

  on_finish-Tally : (c : Closer) {m' : Merged} → on_finish m c ≡ moves m' → Tally f m'
  unfolding on_finish
  on_finish-Tally (collecting zero) h = same-Tally _ refl refl h
  on_finish-Tally (collecting (suc _)) h = cc
  on_finish-Tally not_called h = cc
  on_finish-Tally returned h = cc

Reach-Tally : {n : ℕ} {m : Merged} {acts : List Action} → Reach n m acts → Tally (failures acts) m
unfolding step merge
Reach-Tally {n} (start e) = rw e (record {
  none_lost = λ h. omega (arith, total-replicate unreported n receiving refl);
  one_seen = λ h. absurd (omega arith);
})
Reach-Tally (later {m = m} {acts = acts} r (receive i it) h) =
    on_receive-Tally (failures acts) m (Reach-Tally r) i it _ refl h
Reach-Tally (later {m = m} {acts = acts} r (deliver i) h) =
    on_deliver-Tally (failures acts) m (Reach-Tally r) i _ refl h
Reach-Tally (later {m = m} {acts = acts} r (quit_sub i e) h) =
    on_quit-Tally (failures acts) m (Reach-Tally r) i e _ refl h
Reach-Tally (later {m = m} {acts = acts} r (report i) h) =
    on_report-Tally (failures acts) m (Reach-Tally r) i _ refl h
Reach-Tally (later {m = m} {acts = acts} r call_close h) =
    on_call-Tally (failures acts) m (Reach-Tally r) m.closer h
Reach-Tally (later {m = m} {acts = acts} r finish_close h) =
    on_finish-Tally (failures acts) m (Reach-Tally r) m.closer h

unreported-le : (xs : List Forwarder) → total unreported xs ≤ total active xs
unreported-le [] = omega arith
unreported-le (receiving ∷ xs) = omega (arith, unreported-le xs)
unreported-le (sending it ∷ xs) = omega (arith, unreported-le xs)
unreported-le (reporting none ∷ xs) = omega (arith, unreported-le xs)
unreported-le (reporting (some e) ∷ xs) = omega (arith, unreported-le xs)
unreported-le (done ∷ xs) = omega (arith, unreported-le xs)

-- When `Close` has returned, its error is nil just if the `Close` of every subscription that was
-- closed returned nil.
close_error-nil :
    {n : ℕ} {m : Merged} {acts : List Action}
    → Reach n m acts
    → m.closer ≡ returned
    → (m.err ≡ none → failures acts ≡ 0) × (failures acts ≡ 0 → m.err ≡ none)
close_error-nil {m = m} {acts = acts} r c = (
  λ e. omega (arith, t.none_lost (ap is_failure e), inactive, unreported-le m.subs),
  λ e. none_of m.err (λ h. omega (arith, t.one_seen h)),
)
  where
    t : Tally (failures acts) m
    t = Reach-Tally r

    inactive : total active m.subs ≡ 0
    inactive = (subst (λ c. Agrees c m) c (Reach-Inv r).agrees).2

    none_of : (o : Option Error) → (0 < is_failure o → ⊥) → o ≡ none
    none_of none h = refl
    none_of (some e) h = absurd (h (omega arith))
