-- ===== src/SyncWait/Reports.antt =====
-- When an error is reported.
use mathlib.Core.Path.{subst}
use awesome_patterns.Base.{
  ℕ, ◌+◌, ◌≡◌, ◌≢◌, ◌<◌, ◌≤◌, refl, sym, ap, Bool, true, false, List, [], ◌∷◌, ◌++◌, Option, none,
  some, get_elem?, arith, length, total, total-set, total-get_elem?, total-snoc, length-total,
  length-append,
}
use awesome_patterns.Channel.{try_send, try_receive}
use awesome_patterns.SyncWait.{
  RoutinePc, running, reported, gone, MainPc, selecting, succeeded, failed, State, moves, new, at,
  on_report, on_done, all_gone, on_wait, on_finished, on_error, Action, report, finish, await_all,
  select_finished, select_error, step, Reach, start, later,
}

abbrev bit : Bool → ℕ
bit true = 1
bit false = 0

module _ {E : Type 0} (w : E → ℕ) where
  -- The error that a goroutine has still to report, weighed.
  abbrev pub weight : Option E → ℕ
  weight none = 0
  weight (some e) = w e

  abbrev pub to_report : RoutinePc E → ℕ
  to_report (running o) = weight o
  to_report (reported e) = 0
  to_report (gone o) = 0

  -- The error that was received.
  abbrev pub received : MainPc E → ℕ
  received selecting = 0
  received succeeded = 0
  received (failed e) = w e

module _ {E : Type 0} where
  -- One for a goroutine that is not done.
  abbrev not_gone : RoutinePc E → ℕ
  not_gone (running o) = 1
  not_gone (reported e) = 1
  not_gone (gone o) = 0

  record Inv (all : (E → ℕ) → ℕ) (s : State E) : Type 0 where
    still_open : s.err_channel.closed ≡ false
    room : s.err_channel.capacity ≡ 1
    fits : length s.err_channel.buffer ≤ 1
    errors :
        (w : E → ℕ)
        → total w s.err_channel.buffer + received w s.main + total (to_report w) s.routines ≡ all w
    waited : s.finished_closed ≡ true → total not_gone s.routines ≡ 0
    succeeded_behind : s.main ≡ succeeded → s.finished_closed ≡ true

  to_report-le : (w : E → ℕ) (r : RoutinePc E) → not_gone r ≡ 0 → to_report w r ≡ 0
  to_report-le w (running o) h = absurd (omega arith)
  to_report-le w (reported e) h = refl
  to_report-le w (gone o) h = refl

  no_reports :
      (w : E → ℕ) (rs : List (RoutinePc E)) → total not_gone rs ≡ 0 → total (to_report w) rs ≡ 0
  no_reports w [] h = refl
  no_reports w (r ∷ rs) h =
      omega (arith, to_report-le w r (omega arith), no_reports w rs (omega arith))

  all_gone-total : (rs : List (RoutinePc E)) → all_gone rs ≡ true → total not_gone rs ≡ 0
  unfolding all_gone
  all_gone-total [] h = refl
  all_gone-total (gone o ∷ rs) h = omega (arith, all_gone-total rs h)
  all_gone-total (running o ∷ rs) h = cc
  all_gone-total (reported e ∷ rs) h = cc

  module _ (all : (E → ℕ) → ℕ) (s : State E) (v : Inv all s) where
    -- Behind the close there is no goroutine that is not done.
    none_left :
        (i : ℕ) (r : RoutinePc E)
        → get_elem? s.routines i ≡ some r
        → not_gone r ≡ 1
        → s.finished_closed ≢ true
    none_left i r g h e =
        absurd (omega (arith, v.waited e, total-get_elem? not_gone s.routines i g))

    on_report-Inv :
        (i : ℕ) (o : Option (RoutinePc E)) {s' : State E}
        → get_elem? s.routines i ≡ o
        → on_report s i o ≡ moves s'
        → Inv all s'
    unfolding on_report try_send
    on_report-Inv i (some (running (some e))) g h =
        let c = record (s.err_channel) { buffer = s.err_channel.buffer ++ e ∷ [] } in
        let empty_now : length s.err_channel.buffer < s.err_channel.capacity = ground (arith, h) in
        subst (Inv all) {x = record (at s i (reported e)) { err_channel = c }} (ground (arith, h))
          (record {
            still_open = v.still_open;
            room = v.room;
            fits = omega (arith, v.room, empty_now, length-append s.err_channel.buffer (e ∷ []));
            errors = λ w. omega (
              arith,
              v.errors w,
              total-snoc w s.err_channel.buffer e,
              total-set (to_report w) s.routines i (reported e) g,
            );
            waited = λ f. absurd (none_left i (running (some e)) g refl f);
            succeeded_behind = v.succeeded_behind;
          })
    on_report-Inv i (some (running none)) g h = cc
    on_report-Inv i (some (reported e)) g h = cc
    on_report-Inv i (some (gone o)) g h = cc
    on_report-Inv i none g h = cc

    done-Inv :
        (i : ℕ) (r r' : RoutinePc E)
        → get_elem? s.routines i ≡ some r
        → not_gone r ≡ 1
        → ((w : E → ℕ) → to_report w r ≡ to_report w r')
        → Inv all (at s i r')
    done-Inv i r r' g h k = record {
      still_open = v.still_open;
      room = v.room;
      fits = v.fits;
      errors = λ w. omega (arith, v.errors w, k w, total-set (to_report w) s.routines i r' g);
      waited = λ f. absurd (none_left i r g h f);
      succeeded_behind = v.succeeded_behind;
    }

    on_done-Inv :
        (i : ℕ) (o : Option (RoutinePc E)) {s' : State E}
        → get_elem? s.routines i ≡ o
        → on_done s i o ≡ moves s'
        → Inv all s'
    unfolding on_done
    on_done-Inv i (some (running (some e))) g h = cc
    on_done-Inv i (some (running none)) g h =
        subst (Inv all) {x = at s i (gone none)} (cc)
          (done-Inv i (running none) (gone none) g refl (λ w. refl))
    on_done-Inv i (some (reported e)) g h =
        subst (Inv all) {x = at s i (gone (some e))} (cc)
          (done-Inv i (reported e) (gone (some e)) g refl (λ w. refl))
    on_done-Inv i (some (gone o)) g h = cc
    on_done-Inv i none g h = cc

    on_wait-Inv :
        (b c : Bool) {s' : State E}
        → all_gone s.routines ≡ c
        → on_wait s b c ≡ moves s'
        → Inv all s'
    unfolding on_wait
    on_wait-Inv false true g h =
        subst (Inv all) {x = record s { finished_closed = true }} (cc) (record {
          still_open = v.still_open;
          room = v.room;
          fits = v.fits;
          errors = v.errors;
          waited = λ f. all_gone-total s.routines g;
          succeeded_behind = λ f. refl;
        })
    on_wait-Inv false false g h = cc
    on_wait-Inv true c g h = cc

    on_finished-Inv :
        (m : MainPc E) (b : Bool) {s' : State E}
        → s.main ≡ m
        → s.finished_closed ≡ b
        → on_finished s m b ≡ moves s'
        → Inv all s'
    unfolding on_finished
    on_finished-Inv selecting true f g h =
        subst (Inv all) {x = record s { main = succeeded }} (cc) (record {
          still_open = v.still_open;
          room = v.room;
          fits = v.fits;
          errors = λ w. omega (arith, v.errors w, ap (received w) f);
          waited = v.waited;
          succeeded_behind = λ e. g;
        })
    on_finished-Inv selecting false f g h = cc
    on_finished-Inv succeeded b f g h = cc
    on_finished-Inv (failed e) b f g h = cc

    error_received-Inv :
        (es : List E) {s' : State E}
        → s.main ≡ selecting
        → s.err_channel.buffer ≡ es
        → on_error s selecting ≡ moves s'
        → Inv all s'
    unfolding on_error try_receive
    error_received-Inv [] f b h = absurd (ground (arith, b, h))
    error_received-Inv (e ∷ es) f b h =
        let c = record (s.err_channel) { buffer = es } in
        subst (Inv all) {x = record s { err_channel = c; main = failed e }} (ground (arith, b, h))
          (record {
            still_open = v.still_open;
            room = v.room;
            fits = omega (arith, v.fits, ap length b);
            errors = λ w. omega (arith, v.errors w, ap (received w) f, ap (total w) b);
            waited = v.waited;
            succeeded_behind = λ k. cc;
          })

    on_error-Inv : (m : MainPc E) {s' : State E} → s.main ≡ m → on_error s m ≡ moves s' → Inv all s'
    unfolding on_error
    on_error-Inv selecting f h = error_received-Inv s.err_channel.buffer f refl h
    on_error-Inv succeeded f h = cc
    on_error-Inv (failed e) f h = cc

    step-Inv : (a : Action) {s' : State E} → step s a ≡ moves s' → Inv all s'
    unfolding step
    step-Inv (report i) h = on_report-Inv i (get_elem? s.routines i) refl h
    step-Inv (finish i) h = on_done-Inv i (get_elem? s.routines i) refl h
    step-Inv await_all h = on_wait-Inv s.finished_closed (all_gone s.routines) refl h
    step-Inv select_finished h = on_finished-Inv s.main s.finished_closed refl refl h
    step-Inv select_error h = on_error-Inv s.main refl h

  module _ (rs : List (RoutinePc E)) where
    new-Inv : Inv (λ w. total (to_report w) rs) (new rs)
    unfolding new
    new-Inv = record {
      still_open = refl;
      room = refl;
      fits = omega arith;
      errors = λ w. omega arith;
      waited = λ e. cc;
      succeeded_behind = λ e. cc;
    }

    Reach-Inv : {s : State E} → Reach rs s → Inv (λ w. total (to_report w) rs) s
    Reach-Inv (start e) = subst (Inv (λ w. total (to_report w) rs)) (sym e) new-Inv
    Reach-Inv (later {s = s} r a h) = step-Inv (λ w. total (to_report w) rs) s (Reach-Inv r) a h

    -- Where at least two of the goroutines have an error to report, success is never printed; and an
    -- error that is printed is one that a goroutine had to report, so that none is printed where there
    -- is none.
    pub errors_reported :
        {s : State E}
        → Reach rs s
        → (2 ≤ total (to_report (λ e. 1)) rs → s.main ≢ succeeded)
          × ((e : E) → s.main ≡ failed e → (w : E → ℕ) → w e ≤ total (to_report w) rs)
    errors_reported {s} r =
        let v = Reach-Inv r in
        (
          λ h f. absurd (
              omega (
                arith,
                h,
                v.fits,
                v.errors (λ e. 1),
                length-total s.err_channel.buffer,
                ap (received (λ e. 1)) f,
                no_reports (λ e. 1) s.routines (v.waited (v.succeeded_behind f)),
              )),
          λ e f w. omega (arith, v.errors w, ap (received w) f),
        )
