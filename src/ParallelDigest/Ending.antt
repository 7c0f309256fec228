-- ===== src/ParallelDigest/Ending.antt =====
-- `MD5All` returns, and leaves no goroutine behind.
use awesome_patterns.Base.{
  ℕ, zero, suc, ◌≡◌, ◌<◌, ◌⊎◌, inl, inr, refl, sym, ap, ◌∙◌, Bool, true, false, List, [], ◌∷◌, ◌++◌,
  Option, none, some, arith, ◌==◌, if◌then◌else◌, get_elem?, set, total, total-get_elem?, total-pos,
  Ends, ends,
}
use awesome_patterns.BoundedDigest.{Error, Visit, failed, other, file, Result}
use awesome_patterns.ParallelDigest.{
  WalkPc, walking, checking, walked, reporting, ended, SummerPc, holding, finished, gone, CloserPc,
  not_started, waiting, closed, MainPc, collecting, awaiting, returned, State, Event, silent,
  collected, moves, is_closed, all_gone, on_visit, on_walk_end, on_cancel, on_count, on_close,
  on_main, on_result, sum_file, on_deliver, Action, visit, end_walk, deliver, cancel, count_down,
  close_results, continue_main, step, Reach,
}
use awesome_patterns.ParallelDigest.Invariant.{
  is_here, is_past, is_sent, is_started, Inv, Stage-at, step-Inv, Reach-Inv,
}
use awesome_patterns.ParallelDigest.Progress.{work_left, step-lt}

total-all_gone : (ds : List SummerPc) → total is_here ds ≡ 0 → all_gone ds ≡ true
unfolding all_gone
total-all_gone [] h = refl
total-all_gone (gone ∷ ds) h = total-all_gone ds (omega arith)
total-all_gone (holding p ∷ ds) h = absurd (omega arith)
total-all_gone (finished ∷ ds) h = absurd (omega arith)

-- The call has returned, and the goroutines that it started have ended.
pub record IsOver {S : Type 0} (s : State S) : Type 0 where
  pub error : Error
  pub main_over : s.main ≡ returned error
  pub walk_over : s.walk ≡ ended
  pub summers_over : all_gone s.summers ≡ true
  pub closer_over : s.closer ≡ closed

module _ {S B : Type 0} (read_file : ℕ → B × Error) (md5_sum : B → S) where
  abbrev pub Next : State S → State S → Type 0
  Next s t = (a : Action) × (e : Event) × (step read_file md5_sum s a ≡ moves t e)

  module _ (s : State S) (v : Inv s) where
    abbrev Enabled : Type 0
    Enabled = (t : State S) × (a : Action) × (e : Event) × (step read_file md5_sum s a ≡ moves t e)

    collected_or_not :
        (q : State S) (r : Result S) (x : Error)
        → (t : State S) × (e : Event) × (on_result q r x ≡ moves t e)
    unfolding on_result
    collected_or_not q r none = (
      record q { sums = λ x. if r.path == x then some r.sum else q.sums x },
      collected r.path,
      refl,
    )
    collected_or_not q r (some x) =
        (record q { main = returned (some x); done_closed = true }, silent, refl)

    -- A goroutine that holds a result can deliver it or go.
    holder_acts :
        (j p : ℕ) (m : MainPc) → get_elem? s.summers j ≡ some (holding p) → s.main ≡ m → Enabled
    unfolding step on_deliver on_cancel
    holder_acts j p collecting g f =
        let q = record s { summers = set s.summers j finished } in
        let (t, e, h) =
          collected_or_not q (sum_file read_file md5_sum p) (sum_file read_file md5_sum p).err in
        let still_open : is_closed s.closer ≡ false =
          ground (arith, v.emptied, total-get_elem? is_here s.summers j g) in
        (t, deliver j, e, ground (arith, f, g, h, still_open))
    holder_acts j p awaiting g f =
        absurd (omega (arith, v.emptied (Stage-at s v f).1, total-get_elem? is_here s.summers j g))
    holder_acts j p (returned x) g f = (
      record s { summers = set s.summers j finished },
      cancel j,
      silent,
      ground (arith, g, Stage-at s v f),
    )

    summer_acts : (j : ℕ) (d : SummerPc) → get_elem? s.summers j ≡ some d → 0 < is_here d → Enabled
    unfolding step on_count
    summer_acts j (holding p) g h = holder_acts j p s.main g refl
    summer_acts j finished g h =
        (record s { summers = set s.summers j gone }, count_down j, silent, ap (on_count s j) g)
    summer_acts j gone g h = absurd (omega arith)

    main_acts :
        (m : MainPc) (o : Option Error)
        → s.main ≡ m
        → s.errc ≡ o
        → s.walk ≡ ended
        → total is_here s.summers ≡ 0
        → s.closer ≡ closed
        → IsOver s ⊎ Enabled
    unfolding step on_main is_closed
    main_acts collecting o f g w n c =
        inr (record s { main = awaiting }, continue_main, silent, ground (arith, f, c))
    main_acts awaiting (some x) f g w n c = inr (
      record s { errc = none; main = returned x; done_closed = true },
      continue_main,
      silent,
      ground (arith, f, g),
    )
    main_acts awaiting none f g w n c = absurd (v.sent (ap is_sent w) (Stage-at s v f).0 g)
    main_acts (returned x) o f g w n c = inl (record {
      error = x;
      main_over = f;
      walk_over = w;
      summers_over = total-all_gone s.summers n;
      closer_over = c;
    })

    closer_acts :
        (n : ℕ) (c : CloserPc)
        → total is_here s.summers ≡ n
        → s.closer ≡ c
        → s.walk ≡ ended
        → IsOver s ⊎ Enabled
    unfolding step on_close
    closer_acts (suc n) c t f w =
        let (j, d, g, h) = total-pos is_here s.summers (omega arith) in inr (summer_acts j d g h)
    closer_acts zero waiting t f w =
        let all = total-all_gone s.summers t in
        inr (record s { closer = closed }, close_results, silent, ground (arith, f, all))
    closer_acts zero closed t f w = main_acts s.main s.errc refl refl w t f
    closer_acts zero not_started t f w =
        absurd (cc (sym (ap is_started f) ∙ v.phase ∙ ap is_past w))

    check_acts : (vs : List Visit) (d : Bool) → s.walk ≡ checking vs → s.done_closed ≡ d → Enabled
    unfolding step on_visit
    check_acts vs true f d =
        (record s { walk = walked (some "walk canceled") }, visit, silent, ground (arith, f, d))
    check_acts vs false f d = (record s { walk = walking vs }, visit, silent, ground (arith, f, d))

    never_stuck : (w : WalkPc) → s.walk ≡ w → IsOver s ⊎ Enabled
    unfolding step on_visit on_walk_end
    never_stuck (walking []) f =
        inr (record s { walk = walked none }, visit, silent, ap (on_visit s) f)
    never_stuck (walking (failed x ∷ vs)) f =
        inr (record s { walk = walked (some x) }, visit, silent, ap (on_visit s) f)
    never_stuck (walking (other ∷ vs)) f =
        inr (record s { walk = walking vs }, visit, silent, ap (on_visit s) f)
    never_stuck (walking (file p ∷ vs)) f = inr (
      record s { walk = checking vs; summers = s.summers ++ holding p ∷ [] },
      visit,
      silent,
      ap (on_visit s) f,
    )
    never_stuck (checking vs) f = inr (check_acts vs s.done_closed f refl)
    never_stuck (walked x) f = inr (
      record s { walk = reporting x; closer = waiting },
      end_walk,
      silent,
      ap (λ w. on_walk_end s w s.errc) f,
    )
    never_stuck (reporting x) f =
        let free = v.free (ap is_sent f) in
        inr (record s { walk = ended; errc = some x }, end_walk, silent, ground (arith, f, free))
    never_stuck ended f = closer_acts (total is_here s.summers) s.closer refl refl f

  acts_or_done : (s : State S) → Inv s → IsOver s ⊎ ((t : State S) × Next s t)
  acts_or_done s v = elim (never_stuck s v s.walk refl) [
    | inl o ↦ inl o
    | inr (t, a, e, h) ↦ inr (t, (a, e, h))
  ]

  -- From every state of a call of `MD5All` of concurrency/parallelism.go, also behind an error of the
  -- walk or of a file, there is a run on which the call returns and all goroutines that it started
  -- end; and every step makes the work left less, so that no order of the steps goes on for ever.
  pub sums-Ends :
      {visits : List Visit} {s : State S} {es : List Event}
      → Reach read_file md5_sum visits s es
      → Ends Next IsOver s × ((t : State S) → Next s t → work_left t < work_left s)
  sums-Ends {s = s} r = (
    ends Next IsOver Inv work_left (λ q t v n. step-Inv q v read_file md5_sum n.0 n.2)
        (λ q t v n. step-lt q read_file md5_sum n.0 n.2) acts_or_done s (Reach-Inv r),
    λ t n. step-lt s read_file md5_sum n.0 n.2,
  )
