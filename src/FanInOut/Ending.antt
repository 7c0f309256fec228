-- ===== src/FanInOut/Ending.antt =====
-- All goroutines of the program end.
use awesome_patterns.Base.{
  ℕ, zero, suc, ◌≡◌, ◌<◌, refl, sym, ap, ◌∙◌, Bool, true, false, List, [], ◌∷◌, ◌++◌, some,
  get_elem?, arith, total, total-get_elem?, total-pos, Ends, ends, ◌⊎◌, inl, inr,
}
use awesome_patterns.FanInOut.{
  GenPc, emitting, emitted, SqPc, taking, giving, shut, OutputPc, copying, holding, gone, Line,
  MainPc, ranging, over, State, moves, square, at, on_emit, on_gen_end, on_give, on_sq_end,
  on_output, on_output_end, all_gone, on_wait, on_end, of_line, Action, emit, end_gen, give, end_sq,
  put, end_output, close_out, end_loop, step, Reach,
}
use awesome_patterns.FanInOut.Invariant.{not_gone, not_shut, not_emitted, gone_line, Inv, none_left}
use awesome_patterns.FanInOut.Merged.{line_shut, gen_emitted}
use awesome_patterns.FanInOut.Preservation.{step-Inv, Reach-Inv}
use awesome_patterns.FanInOut.Progress.{work_left, step-lt}

total-all_gone : (ls : List Line) → total gone_line ls ≡ 0 → all_gone ls ≡ true
unfolding all_gone
total-all_gone [] h = refl
total-all_gone (l ∷ ls) h = by_output l.output refl (total-all_gone ls (omega arith))
  where
    by_output : (p : OutputPc) → l.output ≡ p → all_gone ls ≡ true → all_gone (l ∷ ls) ≡ true
    by_output copying f k = absurd (omega (arith, ap not_gone f))
    by_output (holding n) f k = absurd (omega (arith, ap not_gone f))
    by_output gone f k = ground (arith, f, k)

-- The loop is over, and all goroutines have ended.
pub record IsOver (s : State) : Type 0 where
  pub main_over : s.main ≡ over
  pub closer_over : s.closed ≡ true
  pub lines_over :
      (i : ℕ) (l : Line)
      → get_elem? s.lines i ≡ some l
      → (not_shut l.sq ≡ 0) × (not_gone l.output ≡ 0)
  pub gen_over : not_emitted s.gen ≡ 0

abbrev pub Next : State → State → Type 0
Next s t = (a : Action) × (step s a ≡ moves t)

module _ (k : ℕ) (nums : List ℕ) (s : State) (v : Inv k nums s) (some_line : 0 < k) where
  abbrev Enabled : Type 0
  Enabled = (t : State) × Next s t

  holder_acts :
      (i : ℕ) (l : Line) (n : ℕ) (b : Bool) (m : MainPc)
      → get_elem? s.lines i ≡ some l
      → l.output ≡ holding n
      → s.closed ≡ b
      → s.main ≡ m
      → Enabled
  unfolding step of_line on_output
  holder_acts i l n true m e f g h = absurd (none_left k nums s v i l e (ap not_gone f) g)
  holder_acts i l n false ranging e f g h = (
    record (at s i (record l { output = copying })) { out = s.out ++ n ∷ [] },
    (put i, ground (arith, e, f, g, h)),
  )
  holder_acts i l n false over e f g h = absurd (cc (sym g ∙ v.over_behind h))

  taker_acts :
      (i : ℕ) (l : Line) (g : GenPc)
      → get_elem? s.lines i ≡ some l
      → l.sq ≡ taking
      → s.gen ≡ g
      → Enabled
  unfolding step of_line on_emit on_gen_end on_sq_end
  taker_acts i l (emitting (n ∷ ns)) e f g = (
    record (at s i (record l { sq = giving (square n) })) { gen = emitting ns },
    (emit i, ground (arith, e, f, g)),
  )
  taker_acts i l (emitting []) e f g = (record s { gen = emitted }, (end_gen, ap (on_gen_end s) g))
  taker_acts i l emitted e f g =
      (at s i (record l { sq = shut }), (end_sq i, ground (arith, e, f, g)))

  copier_acts :
      (i : ℕ) (l : Line) (p : SqPc)
      → get_elem? s.lines i ≡ some l
      → l.output ≡ copying
      → l.sq ≡ p
      → Enabled
  unfolding step of_line on_give on_output_end
  copier_acts i l taking e f g = taker_acts i l s.gen e g refl
  copier_acts i l (giving n) e f g =
      (at s i (record { sq = taking; output = holding n }), (give i, ground (arith, e, f, g)))
  copier_acts i l shut e f g =
      (at s i (record l { output = gone }), (end_output i, ground (arith, e, f, g)))

  line_acts :
      (i : ℕ) (l : Line) (o : OutputPc)
      → get_elem? s.lines i ≡ some l
      → l.output ≡ o
      → 0 < not_gone o
      → Enabled
  line_acts i l copying e f h = copier_acts i l l.sq e f refl
  line_acts i l (holding n) e f h = holder_acts i l n s.closed s.main e f refl refl
  line_acts i l gone e f h = absurd (omega arith)

  end_acts :
      (b : Bool) (m : MainPc)
      → total gone_line s.lines ≡ 0
      → s.closed ≡ b
      → s.main ≡ m
      → IsOver s ⊎ Enabled
  unfolding step on_wait on_end
  end_acts false m all f g =
      inr (record s { closed = true }, (close_out, ground (arith, f, total-all_gone s.lines all)))
  end_acts true ranging all f g = inr (record s { main = over }, (end_loop, ground (arith, f, g)))
  end_acts true over all f g = inl (record {
    main_over = g;
    closer_over = f;
    lines_over = λ i l e.
        (line_shut k nums s v all i l e, omega (arith, all, total-get_elem? gone_line s.lines i e));
    gen_over = gen_emitted k nums s v all some_line;
  })

  acts_or_done : (n : ℕ) → total gone_line s.lines ≡ n → IsOver s ⊎ Enabled
  acts_or_done (suc n) e =
      let (i, l, g, h) = total-pos gone_line s.lines (omega arith) in
      inr (line_acts i l l.output g refl h)
  acts_or_done zero e = end_acts s.closed s.main e refl refl

-- Where at least one goroutine squares, there is from every state of the program a run at whose end the
-- loop is over and all goroutines have ended; and every step makes the work left less, so that no order
-- of the steps goes on for ever.
pub merge-Ends :
    {k : ℕ} {nums : List ℕ} {s : State}
    → Reach k nums s
    → 0 < k
    → Ends Next IsOver s × ((t : State) → Next s t → work_left t < work_left s)
merge-Ends {k} {nums} {s} r h = (
  ends Next IsOver (Inv k nums) work_left (λ q t v n. step-Inv k nums q v n.0 n.1)
      (λ q t v n. step-lt q n.0 n.1)
      (λ q v. acts_or_done k nums q v h (total gone_line q.lines) refl) s (Reach-Inv r),
  λ t n. step-lt s n.0 n.1,
)
