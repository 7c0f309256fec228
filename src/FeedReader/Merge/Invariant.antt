-- ===== src/FeedReader/Merge/Invariant.antt =====
-- How the goroutines of `Merge` and its `Close` stand to one another in every reachable state.
use mathlib.Core.Path.{subst}
use awesome_patterns.Base.{
  ℕ, zero, suc, ◌≡◌, refl, ◌∙◌, true, false, List, [], ◌∷◌, Option, none, some, arith, length,
  get_elem?, set, total, total-set, length-set, total-replicate, length-replicate, inl, inr, ◌⊎◌,
}
use awesome_patterns.FeedReader.{Item, Error}
use awesome_patterns.FeedReader.Merge.{
  Forwarder, receiving, sending, reporting, done, Closer, not_called, collecting, returned, Merged,
  merge, Action, receive, deliver, quit_sub, report, call_close, finish_close, moves, on_receive,
  on_deliver, on_quit, on_report, collect_error, on_call, on_finish, step, Reach, start, later,
}

-- Whether the goroutine has not ended; whether it has seen `quit`.
abbrev pub active : Forwarder → ℕ
active done = 0
active _ = 1

abbrev pub told : Forwarder → ℕ
told receiving = 0
told (sending it) = 0
told _ = 1

-- `Close` waits for just the goroutines that have not ended, and closes `updates` behind them.
abbrev pub Agrees : Closer → Merged → Type 0
Agrees not_called m = (m.quit ≡ false) × (m.updates_closed ≡ false) × (total told m.subs ≡ 0)
Agrees (collecting k) m = (m.quit ≡ true) × (m.updates_closed ≡ false) × (total active m.subs ≡ k)
Agrees returned m = (m.quit ≡ true) × (m.updates_closed ≡ true) × (total active m.subs ≡ 0)

pub record Inv (n : ℕ) (m : Merged) : Type 0 where
  pub size : length m.subs ≡ n
  pub agrees : Agrees m.closer m

merge-Inv : (n : ℕ) → Inv n (merge n)
unfolding merge
merge-Inv n = record {
  size = length-replicate n receiving;
  agrees = (refl, refl, total-replicate told n receiving refl);
}

-- While no goroutine was told to quit, all are active.
total-active : (xs : List Forwarder) → total told xs ≡ 0 → total active xs ≡ length xs
total-active [] h = refl
total-active (receiving ∷ xs) h = omega (arith, total-active xs (omega arith))
total-active (sending it ∷ xs) h = omega (arith, total-active xs (omega arith))
total-active (reporting e ∷ xs) h = absurd (omega arith)
total-active (done ∷ xs) h = absurd (omega arith)

-- A goroutine goes from `p` to `p'`, neither of which is `done`.
module _ {n : ℕ} (m : Merged) (v : Inv n m) (i : ℕ) where
  turn-Agrees :
      (c : Closer) (p p' : Forwarder)
      → get_elem? m.subs i ≡ some p
      → active p ≡ active p'
      → ((told p ≡ told p') ⊎ (m.quit ≡ true))
      → Agrees c m
      → Agrees c (record m { subs = set m.subs i p' })
  turn-Agrees not_called p p' e f g a = ground (arith, total-set told m.subs i p' e)
  turn-Agrees (collecting k) p p' e f g a =
      (a.0, a.1, omega (arith, total-set active m.subs i p' e))
  turn-Agrees returned p p' e f g a = (a.0, a.1, omega (arith, total-set active m.subs i p' e))

  turn-Inv :
      (p p' : Forwarder)
      → get_elem? m.subs i ≡ some p
      → active p ≡ active p'
      → ((told p ≡ told p') ⊎ (m.quit ≡ true))
      → Inv n (record m { subs = set m.subs i p' })
  turn-Inv p p' e f g = record {
    size = length-set m.subs i p' ∙ v.size;
    agrees = turn-Agrees m.closer p p' e f g v.agrees;
  }

  moves-Inv : {m' : Merged} (x : Merged) → moves x ≡ moves m' → Inv n x → Inv n m'
  moves-Inv x e w = subst (Inv n) (cc) w

  on_receive-Inv :
      (it : Item) (o : Option Forwarder) {m' : Merged}
      → get_elem? m.subs i ≡ o
      → on_receive m i it o ≡ moves m'
      → Inv n m'
  unfolding on_receive
  on_receive-Inv it (some receiving) e h =
      moves-Inv _ h (turn-Inv receiving (sending it) e refl (inl refl))
  on_receive-Inv it (some (sending _)) e h = cc
  on_receive-Inv it (some (reporting _)) e h = cc
  on_receive-Inv it (some done) e h = cc
  on_receive-Inv it none e h = cc

  on_deliver-Inv :
      (o : Option Forwarder) {m' : Merged}
      → get_elem? m.subs i ≡ o
      → on_deliver m i o ≡ moves m'
      → Inv n m'
  unfolding on_deliver
  on_deliver-Inv (some (sending it)) e h =
      moves-Inv _ (ground arith) (turn-Inv (sending it) receiving e refl (inl refl))
  on_deliver-Inv (some receiving) e h = cc
  on_deliver-Inv (some (reporting _)) e h = cc
  on_deliver-Inv (some done) e h = cc
  on_deliver-Inv none e h = cc

  on_quit-Inv :
      (e : Option Error) (o : Option Forwarder) {m' : Merged}
      → get_elem? m.subs i ≡ o
      → on_quit m i e o ≡ moves m'
      → Inv n m'
  unfolding on_quit
  on_quit-Inv e (some receiving) f h =
      moves-Inv _ (ground arith) (turn-Inv receiving (reporting e) f refl (inr (ground arith)))
  on_quit-Inv e (some (sending it)) f h =
      moves-Inv _ (ground arith) (turn-Inv (sending it) (reporting e) f refl (inr (ground arith)))
  on_quit-Inv e (some (reporting _)) f h = cc
  on_quit-Inv e (some done) f h = cc
  on_quit-Inv e none f h = cc

  collect_error-Inv :
      (e : Option Error) (c : Closer) {m' : Merged}
      → get_elem? m.subs i ≡ some (reporting e)
      → Agrees c m
      → collect_error m i e c ≡ moves m'
      → Inv n m'
  unfolding collect_error
  collect_error-Inv e (collecting (suc k)) f a h = moves-Inv _ h (record {
    size = length-set m.subs i done ∙ v.size;
    agrees = (a.0, a.1, omega (arith, total-set active m.subs i done f));
  })
  collect_error-Inv e (collecting zero) f a h = cc
  collect_error-Inv e not_called f a h = cc
  collect_error-Inv e returned f a h = cc

  on_report-Inv :
      (o : Option Forwarder) {m' : Merged}
      → get_elem? m.subs i ≡ o
      → on_report m i o ≡ moves m'
      → Inv n m'
  unfolding on_report
  on_report-Inv (some (reporting e)) f h = collect_error-Inv e m.closer f v.agrees h
  on_report-Inv (some receiving) f h = cc
  on_report-Inv (some (sending _)) f h = cc
  on_report-Inv (some done) f h = cc
  on_report-Inv none f h = cc

module _ {n : ℕ} (m : Merged) (v : Inv n m) where
  on_call-Inv : (c : Closer) {m' : Merged} → Agrees c m → on_call m c ≡ moves m' → Inv n m'
  unfolding on_call
  on_call-Inv not_called a h =
      moves-Inv m v 0 _ h (record { size = v.size; agrees = (refl, a.1, total-active m.subs a.2) })
  on_call-Inv (collecting _) a h = cc
  on_call-Inv returned a h = cc

  on_finish-Inv : (c : Closer) {m' : Merged} → Agrees c m → on_finish m c ≡ moves m' → Inv n m'
  unfolding on_finish
  on_finish-Inv (collecting zero) a h =
      moves-Inv m v 0 _ h (record { size = v.size; agrees = (a.0, refl, a.2) })
  on_finish-Inv (collecting (suc _)) a h = cc
  on_finish-Inv not_called a h = cc
  on_finish-Inv returned a h = cc

  pub step-Inv : (a : Action) {m' : Merged} → step m a ≡ moves m' → Inv n m'
  unfolding step
  step-Inv (receive i it) h = on_receive-Inv m v i it _ refl h
  step-Inv (deliver i) h = on_deliver-Inv m v i _ refl h
  step-Inv (quit_sub i e) h = on_quit-Inv m v i e _ refl h
  step-Inv (report i) h = on_report-Inv m v i _ refl h
  step-Inv call_close h = on_call-Inv m.closer v.agrees h
  step-Inv finish_close h = on_finish-Inv m.closer v.agrees h

pub Reach-Inv : {n : ℕ} {m : Merged} {acts : List Action} → Reach n m acts → Inv n m
Reach-Inv {n} (start e) = rw e (merge-Inv n)
Reach-Inv (later {m = m} r a h) = step-Inv m (Reach-Inv r) a h
