-- ===== src/FanInOut/Progress.antt =====
-- Each step leaves less to do.
use awesome_patterns.Base.{
  ℕ, ◌+◌, ◌*◌, ◌≡◌, ◌<◌, refl, ap, Bool, true, false, [], ◌∷◌, Option, none, some, get_elem?, arith,
  length, total, total-set,
}
use awesome_patterns.FanInOut.{
  GenPc, emitting, emitted, SqPc, taking, giving, shut, OutputPc, copying, holding, gone, Line,
  MainPc, ranging, over, State, Outcome, moves, square, on_emit, on_gen_end, on_give, on_sq_end,
  on_output, on_output_end, all_gone, on_wait, on_end, of_line, Action, emit, end_gen, give, end_sq,
  put, end_output, close_out, end_loop, step,
}

abbrev pub gen_work : GenPc → ℕ
gen_work (emitting ns) = 3 * length ns + 1
gen_work emitted = 0

abbrev pub sq_work : SqPc → ℕ
sq_work taking = 1
sq_work (giving n) = 3
sq_work shut = 0

abbrev pub output_work : OutputPc → ℕ
output_work copying = 1
output_work (holding n) = 2
output_work gone = 0

abbrev pub line_work : Line → ℕ
line_work l = sq_work l.sq + output_work l.output

abbrev pub closer_work : Bool → ℕ
closer_work false = 1
closer_work true = 0

abbrev pub main_work : MainPc → ℕ
main_work ranging = 1
main_work over = 0

abbrev pub work_left : State → ℕ
work_left s = gen_work s.gen + total line_work s.lines + closer_work s.closed + main_work s.main

module _ (s : State) where
  on_emit-lt :
      (i : ℕ) (l : Line) (g : GenPc) (p : SqPc) {s' : State}
      → get_elem? s.lines i ≡ some l
      → s.gen ≡ g
      → l.sq ≡ p
      → on_emit s i l g p ≡ moves s'
      → work_left s' < work_left s
  unfolding on_emit
  on_emit-lt i l (emitting (n ∷ ns)) taking e f h m = ground (
    arith,
    ap gen_work f,
    ap sq_work h,
    total-set line_work s.lines i (record l { sq = giving (square n) }) e,
  )
  on_emit-lt i l (emitting (n ∷ ns)) (giving x) e f h m = cc
  on_emit-lt i l (emitting (n ∷ ns)) shut e f h m = cc
  on_emit-lt i l (emitting []) p e f h m = cc
  on_emit-lt i l emitted p e f h m = cc

  on_give-lt :
      (i : ℕ) (l : Line) (p : SqPc) (o : OutputPc) {s' : State}
      → get_elem? s.lines i ≡ some l
      → l.sq ≡ p
      → l.output ≡ o
      → on_give s i l p o ≡ moves s'
      → work_left s' < work_left s
  unfolding on_give
  on_give-lt i l (giving n) copying e f h m =
      let l' : Line = record { sq = taking; output = holding n } in
      ground (arith, ap sq_work f, ap output_work h, total-set line_work s.lines i l' e)
  on_give-lt i l (giving n) (holding x) e f h m = cc
  on_give-lt i l (giving n) gone e f h m = cc
  on_give-lt i l taking p e f h m = cc
  on_give-lt i l shut p e f h m = cc

  on_sq_end-lt :
      (i : ℕ) (l : Line) (p : SqPc) (g : GenPc) {s' : State}
      → get_elem? s.lines i ≡ some l
      → l.sq ≡ p
      → on_sq_end s i l p g ≡ moves s'
      → work_left s' < work_left s
  unfolding on_sq_end
  on_sq_end-lt i l taking emitted e f m =
      ground (arith, ap sq_work f, total-set line_work s.lines i (record l { sq = shut }) e)
  on_sq_end-lt i l taking (emitting ns) e f m = cc
  on_sq_end-lt i l (giving n) g e f m = cc
  on_sq_end-lt i l shut g e f m = cc

  on_output-lt :
      (i : ℕ) (l : Line) (p : OutputPc) (b : Bool) (q : MainPc) {s' : State}
      → get_elem? s.lines i ≡ some l
      → l.output ≡ p
      → on_output s i l p b q ≡ moves s'
      → work_left s' < work_left s
  unfolding on_output
  on_output-lt i l (holding n) false ranging e f m =
      ground
        (arith, ap output_work f, total-set line_work s.lines i (record l { output = copying }) e)
  on_output-lt i l (holding n) false over e f m = cc
  on_output-lt i l (holding n) true q e f m = cc
  on_output-lt i l copying b q e f m = cc
  on_output-lt i l gone b q e f m = cc

  on_output_end-lt :
      (i : ℕ) (l : Line) (o : OutputPc) (p : SqPc) {s' : State}
      → get_elem? s.lines i ≡ some l
      → l.output ≡ o
      → on_output_end s i l o p ≡ moves s'
      → work_left s' < work_left s
  unfolding on_output_end
  on_output_end-lt i l copying shut e f m =
      ground (arith, ap output_work f, total-set line_work s.lines i (record l { output = gone }) e)
  on_output_end-lt i l copying taking e f m = cc
  on_output_end-lt i l copying (giving n) e f m = cc
  on_output_end-lt i l (holding n) p e f m = cc
  on_output_end-lt i l gone p e f m = cc

  on_gen_end-lt :
      (g : GenPc) {s' : State} → s.gen ≡ g → on_gen_end s g ≡ moves s' → work_left s' < work_left s
  unfolding on_gen_end
  on_gen_end-lt (emitting []) f m = ground (arith, ap gen_work f)
  on_gen_end-lt (emitting (n ∷ ns)) f m = cc
  on_gen_end-lt emitted f m = cc

  on_wait-lt :
      (b c : Bool) {s' : State}
      → s.closed ≡ b
      → on_wait s b c ≡ moves s'
      → work_left s' < work_left s
  unfolding on_wait
  on_wait-lt false true f m = ground (arith, ap closer_work f)
  on_wait-lt false false f m = cc
  on_wait-lt true c f m = cc

  on_end-lt :
      (p : MainPc) (b : Bool) {s' : State}
      → s.main ≡ p
      → on_end s p b ≡ moves s'
      → work_left s' < work_left s
  unfolding on_end
  on_end-lt ranging true f m = ground (arith, ap main_work f)
  on_end-lt ranging false f m = cc
  on_end-lt over b f m = cc

  of_line-lt :
      (f : Line → Outcome) (o : Option Line) {s' : State}
      → ((l : Line) → o ≡ some l → f l ≡ moves s' → work_left s' < work_left s)
      → of_line f o ≡ moves s'
      → work_left s' < work_left s
  unfolding of_line
  of_line-lt f none h m = cc
  of_line-lt f (some l) h m = h l refl m

  pub step-lt : (a : Action) {s' : State} → step s a ≡ moves s' → work_left s' < work_left s
  unfolding step
  step-lt (emit i) m =
      of_line-lt _ (get_elem? s.lines i) (λ l e h. on_emit-lt i l s.gen l.sq e refl refl h) m
  step-lt end_gen m = on_gen_end-lt s.gen refl m
  step-lt (give i) m =
      of_line-lt _ (get_elem? s.lines i) (λ l e h. on_give-lt i l l.sq l.output e refl refl h) m
  step-lt (end_sq i) m =
      of_line-lt _ (get_elem? s.lines i) (λ l e h. on_sq_end-lt i l l.sq s.gen e refl h) m
  step-lt (put i) m =
      of_line-lt _ (get_elem? s.lines i)
        (λ l e h. on_output-lt i l l.output s.closed s.main e refl h) m
  step-lt (end_output i) m =
      of_line-lt _ (get_elem? s.lines i) (λ l e h. on_output_end-lt i l l.output l.sq e refl h) m
  step-lt close_out m = on_wait-lt s.closed (all_gone s.lines) refl m
  step-lt end_loop m = on_end-lt s.main s.closed refl m
