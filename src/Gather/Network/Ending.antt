-- ===== src/Gather/Network/Ending.antt =====
-- `DivideAndConquer` returns, and leaves no goroutine behind.
use awesome_patterns.Base.{
  ℕ, zero, suc, ◌≡◌, ◌<◌, ◌⊎◌, inl, inr, refl, ap, List, [], ◌∷◌, ◌++◌, some, arith, length,
  get_elem?, total, total-pos, length-total, Ends, ends,
}
use awesome_patterns.Channel.{try_send, try_receive}
use awesome_patterns.Gather.{Evaluated, result, failed, send}
use awesome_patterns.Gather.Network.{
  InnerPc, evaluating, stored, OuterPc, selecting, sending, gone, Task, MainPc, gathering, returned,
  State, moves, Action, evaluate_task, time_out, deliver, gather_result, gather_error, end_gather,
  at, store, on_evaluate, on_timeout, on_deliver, on_gather, on_gather_error, on_return, of_task,
  step, Reach,
}
use awesome_patterns.Gather.Network.Invariant.{rounds_left, Inv}
use awesome_patterns.Gather.Network.Preservation.{step-Inv, Reach-Inv}
use awesome_patterns.Gather.Network.Outcomes.{not_gone, gone_counted}
use awesome_patterns.Gather.Network.Progress.{inner_work, work_left, step-lt}

-- The call has returned, and the goroutines that it started have ended.
pub record IsOver {R E : Type 0} (s : State R E) : Type 0 where
  pub main_over : s.main ≡ returned
  pub inner_over : total (λ t. inner_work t.inner) s.tasks ≡ 0
  pub outer_over : total (λ t. not_gone t.outer) s.tasks ≡ 0

module _ {R E : Type 0} (evaluate : ℕ → Evaluated R E) (timeout : ℕ → E) where
  abbrev pub Next : State R E → State R E → Type 0
  Next s t = (a : Action) × (step evaluate timeout s a ≡ moves t)

  module _ (n : ℕ) (s : State R E) (v : Inv evaluate timeout n s) where
    abbrev Enabled : Type 0
    Enabled = (t : State R E) × (a : Action) × (step evaluate timeout s a ≡ moves t)

    inner_acts :
        (i : ℕ) (t : Task R E) (c : InnerPc) (x : Evaluated R E)
        → get_elem? s.tasks i ≡ some t
        → t.inner ≡ c
        → 0 < inner_work c
        → evaluate i ≡ x
        → Enabled
    unfolding step of_task on_evaluate store try_send
    inner_acts i t stored x g f h e = absurd (omega arith)
    inner_acts i t evaluating (result r) g f h e =
        let o = v.each i t g in
        let t' = record t {
          inner = stored;
          ch = record (t.ch) { buffer = t.ch.buffer ++ r ∷ [] };
        } in
        (
          at s i t',
          evaluate_task i,
          ground (arith, g, f, e, o.ch_open, o.ch_room, (o.unstored f).0),
        )
    inner_acts i t evaluating (failed r) g f h e =
        let o = v.each i t g in
        let t' = record t {
          inner = stored;
          ech = record (t.ech) { buffer = t.ech.buffer ++ r ∷ [] };
        } in
        (
          at s i t',
          evaluate_task i,
          ground (arith, g, f, e, o.ech_open, o.ech_room, (o.unstored f).1),
        )

    -- Both shared channels have room for a goroutine that has not ended.
    gather_has_room :
        0 < total (λ t. not_gone t.outer) s.tasks
        → (length s.channels.gather.buffer < n) × (length s.channels.errors.buffer < n)
    gather_has_room h = omega (
      arith,
      v.size,
      gone_counted s.tasks,
      v.gathered (λ x. 1),
      v.gathered_errors (λ x. 1),
      length-total s.channels.gather.buffer,
      length-total s.channels.errors.buffer,
    )

    outer_acts :
        (i : ℕ) (t : Task R E) (c : OuterPc R E)
        → get_elem? s.tasks i ≡ some t
        → t.outer ≡ c
        → 0 < not_gone c
        → (length s.channels.gather.buffer < n) × (length s.channels.errors.buffer < n)
        → Enabled
    unfolding step of_task on_timeout on_deliver send try_send
    outer_acts i t selecting g f h room = (
      at s i (record t { outer = sending (failed (timeout i)) }),
      time_out i,
      ground (arith, g, f),
    )
    outer_acts i t (sending (result r)) g f h room =
        let c = record (s.channels.gather) { buffer = s.channels.gather.buffer ++ r ∷ [] } in
        (
          record (at s i (record t { outer = gone (result r) })) {
            channels = record (s.channels) { gather = c };
          },
          deliver i,
          ground (arith, g, f, v.gather_open, v.gather_room, room.0),
        )
    outer_acts i t (sending (failed e)) g f h room =
        let c = record (s.channels.errors) { buffer = s.channels.errors.buffer ++ e ∷ [] } in
        (
          record (at s i (record t { outer = gone (failed e) })) {
            channels = record (s.channels) { errors = c };
          },
          deliver i,
          ground (arith, g, f, v.errors_open, v.errors_room, room.1),
        )
    outer_acts i t (gone x) g f h room = absurd (omega arith)

    main_acts :
        (m : MainPc) (rs : List R) (es : List E)
        → s.main ≡ m
        → s.channels.gather.buffer ≡ rs
        → s.channels.errors.buffer ≡ es
        → total (λ t. inner_work t.inner) s.tasks ≡ 0
        → total (λ t. not_gone t.outer) s.tasks ≡ 0
        → IsOver s ⊎ Enabled
    unfolding step on_gather on_gather_error on_return try_receive
    main_acts (gathering zero) rs es f g h p q =
        inr (record s { main = returned }, end_gather, ground (arith, f))
    main_acts (gathering (suc k)) (r ∷ rs) es f g h p q =
        let c = record (s.channels.gather) { buffer = rs } in
        inr (
          record s {
            channels = record (s.channels) { gather = c };
            main = gathering k;
            out = s.out ++ r ∷ [];
          },
          gather_result,
          ground (arith, f, g),
        )
    main_acts (gathering (suc k)) [] (e ∷ es) f g h p q =
        let c = record (s.channels.errors) { buffer = es } in
        inr (
          record s {
            channels = record (s.channels) { errors = c };
            main = gathering k;
            errs = s.errs ++ e ∷ [];
          },
          gather_error,
          ground (arith, f, h),
        )
    main_acts (gathering (suc k)) [] [] f g h p q = absurd (
        omega (
          arith,
          v.rounds,
          ap rounds_left f,
          v.size,
          gone_counted s.tasks,
          v.gathered (λ x. 1),
          v.gathered_errors (λ x. 1),
          ap (total (λ (x : R). 1)) g,
          ap (total (λ (x : E). 1)) h,
          length-total s.out,
          length-total s.errs,
        ))
    main_acts returned rs es f g h p q =
        inl (record { main_over = f; inner_over = p; outer_over = q })

    never_stuck :
        (a b : ℕ)
        → total (λ t. inner_work t.inner) s.tasks ≡ a
        → total (λ t. not_gone t.outer) s.tasks ≡ b
        → IsOver s ⊎ Enabled
    never_stuck (suc a) b p q =
        let (i, t, g, h) = total-pos (λ t. inner_work t.inner) s.tasks (omega arith) in
        inr (inner_acts i t t.inner (evaluate i) g refl h refl)
    never_stuck zero (suc b) p q =
        let (i, t, g, h) = total-pos (λ t. not_gone t.outer) s.tasks (omega arith) in
        inr (outer_acts i t t.outer g refl h (gather_has_room (omega arith)))
    never_stuck zero zero p q =
        main_acts s.main s.channels.gather.buffer s.channels.errors.buffer refl refl refl p q

  acts_or_done :
      (n : ℕ) (s : State R E) → Inv evaluate timeout n s → IsOver s ⊎ ((t : State R E) × Next s t)
  acts_or_done n s v = elim (never_stuck n s v _ _ refl refl) [
    | inl o ↦ inl o
    | inr (t, a, h) ↦ inr (t, (a, h))
  ]

  -- From every state of a call of `DivideAndConquer`, there is a run on which the call returns and all
  -- goroutines that it started end; and every step makes the work left less, so that no order of the
  -- steps goes on for ever.
  pub gather-Ends :
      {n : ℕ} {s : State R E}
      → Reach evaluate timeout n s
      → Ends Next IsOver s × ((t : State R E) → Next s t → work_left t < work_left s)
  gather-Ends {n} {s} r = (
    ends Next IsOver (Inv evaluate timeout n) work_left
        (λ q t v a. step-Inv evaluate timeout n q v a.0 a.1)
        (λ q t v a. step-lt q evaluate timeout a.0 a.1) (acts_or_done n) s
        (Reach-Inv evaluate timeout r),
    λ t a. step-lt s evaluate timeout a.0 a.1,
  )
