-- ===== src/FanInOut/Preservation.antt =====
-- Each step keeps the invariant.
use mathlib.Core.Path.{subst}
use awesome_patterns.Base.{
  ℕ, ◌≡◌, ◌≤◌, refl, sym, ap, Bool, true, false, List, [], ◌∷◌, ◌++◌, Option, none, some, get_elem?,
  arith, total, total-snoc,
}
use awesome_patterns.FanInOut.{
  GenPc, emitting, emitted, SqPc, taking, giving, shut, OutputPc, copying, holding, gone, Line,
  MainPc, ranging, over, State, Outcome, moves, square, at, on_emit, on_gen_end, on_give, on_sq_end,
  on_output, on_output_end, all_gone, on_wait, on_end, of_line, Action, emit, end_gen, give, end_sq,
  put, end_output, close_out, end_loop, step, Reach, start, later,
}
use awesome_patterns.FanInOut.Invariant.{
  in_gen, in_sq, in_output, not_gone, not_shut, not_emitted, gone_line, Inv, new-Inv, moved-Inv,
}

gone_le : (p : OutputPc) → not_gone p ≤ 1
gone_le copying = omega arith
gone_le (holding n) = omega arith
gone_le gone = omega arith

shut_le : (p : SqPc) → not_shut p ≤ 1
shut_le taking = omega arith
shut_le (giving n) = omega arith
shut_le shut = omega arith

all_gone-total : (ls : List Line) → all_gone ls ≡ true → total gone_line ls ≡ 0
unfolding all_gone
all_gone-total [] h = refl
all_gone-total (l ∷ ls) h = by_output l.output refl (all_gone-total ls)
  where
    by_output :
        (p : OutputPc)
        → l.output ≡ p
        → (all_gone ls ≡ true → total gone_line ls ≡ 0)
        → total gone_line (l ∷ ls) ≡ 0
    by_output copying f k = absurd (ground (arith, f, h))
    by_output (holding n) f k = absurd (ground (arith, f, h))
    by_output gone f k = omega (arith, ap not_gone f, k (ground (arith, f, h)))

module _ (k : ℕ) (nums : List ℕ) (s : State) (v : Inv k nums s) where
  on_emit-Inv :
      (i : ℕ) (l : Line) (g : GenPc) (p : SqPc) {s' : State}
      → get_elem? s.lines i ≡ some l
      → s.gen ≡ g
      → l.sq ≡ p
      → on_emit s i l g p ≡ moves s'
      → Inv k nums s'
  unfolding on_emit
  on_emit-Inv i l (emitting (n ∷ ns)) taking e f h m =
      let o = v.lines_order i l e in
      let l' = record l { sq = giving (square n) } in
      subst (Inv k nums) {x = record (at s i l') { gen = emitting ns }} (cc) (
        moved-Inv k nums s v i l l' (emitting ns) s.out e
          (omega (arith, o, ap not_shut h, gone_le l.output))
          (λ w. omega (arith, ap (in_gen w) f, ap (in_sq w) h)) (omega (arith, o, ap not_shut h))
          (omega arith) (sym (ap not_emitted f)))
  on_emit-Inv i l (emitting (n ∷ ns)) (giving x) e f h m = cc
  on_emit-Inv i l (emitting (n ∷ ns)) shut e f h m = cc
  on_emit-Inv i l (emitting []) p e f h m = cc
  on_emit-Inv i l emitted p e f h m = cc

  on_give-Inv :
      (i : ℕ) (l : Line) (p : SqPc) (o : OutputPc) {s' : State}
      → get_elem? s.lines i ≡ some l
      → l.sq ≡ p
      → l.output ≡ o
      → on_give s i l p o ≡ moves s'
      → Inv k nums s'
  unfolding on_give
  on_give-Inv i l (giving n) copying e f h m =
      let l' : Line = record { sq = taking; output = holding n } in
      subst (Inv k nums) {x = at s i l'} (cc) (
        moved-Inv k nums s v i l l' s.gen s.out e (ap not_gone h)
          (λ w. omega (arith, ap (in_sq w) f, ap (in_output w) h)) (omega arith)
          (omega (arith, v.gen_order i l e, ap not_shut f)) refl)
  on_give-Inv i l (giving n) (holding x) e f h m = cc
  on_give-Inv i l (giving n) gone e f h m = cc
  on_give-Inv i l taking p e f h m = cc
  on_give-Inv i l shut p e f h m = cc

  on_sq_end-Inv :
      (i : ℕ) (l : Line) (p : SqPc) (g : GenPc) {s' : State}
      → get_elem? s.lines i ≡ some l
      → l.sq ≡ p
      → s.gen ≡ g
      → on_sq_end s i l p g ≡ moves s'
      → Inv k nums s'
  unfolding on_sq_end
  on_sq_end-Inv i l taking emitted e f h m =
      let o = v.lines_order i l e in
      let l' = record l { sq = shut } in
      subst (Inv k nums) {x = at s i l'} (cc) (
        moved-Inv k nums s v i l l' s.gen s.out e
          (omega (arith, o, ap not_shut f, gone_le l.output)) (λ w. omega (arith, ap (in_sq w) f))
          (omega arith) (omega (arith, ap not_emitted h)) refl)
  on_sq_end-Inv i l taking (emitting ns) e f h m = cc
  on_sq_end-Inv i l (giving n) g e f h m = cc
  on_sq_end-Inv i l shut g e f h m = cc

  on_output-Inv :
      (i : ℕ) (l : Line) (p : OutputPc) (b : Bool) (q : MainPc) {s' : State}
      → get_elem? s.lines i ≡ some l
      → l.output ≡ p
      → on_output s i l p b q ≡ moves s'
      → Inv k nums s'
  unfolding on_output
  on_output-Inv i l (holding n) false ranging e f m =
      let l' = record l { output = copying } in
      subst (Inv k nums) {x = record (at s i l') { out = s.out ++ n ∷ [] }} (cc) (
        moved-Inv k nums s v i l l' s.gen (s.out ++ n ∷ []) e (ap not_gone f)
          (λ w. omega (arith, ap (in_output w) f, total-snoc w s.out n)) (shut_le l.sq)
          (v.gen_order i l e) refl)
  on_output-Inv i l (holding n) false over e f m = cc
  on_output-Inv i l (holding n) true q e f m = cc
  on_output-Inv i l copying b q e f m = cc
  on_output-Inv i l gone b q e f m = cc

  on_output_end-Inv :
      (i : ℕ) (l : Line) (o : OutputPc) (p : SqPc) {s' : State}
      → get_elem? s.lines i ≡ some l
      → l.output ≡ o
      → l.sq ≡ p
      → on_output_end s i l o p ≡ moves s'
      → Inv k nums s'
  unfolding on_output_end
  on_output_end-Inv i l copying shut e f h m =
      let l' = record l { output = gone } in
      subst (Inv k nums) {x = at s i l'} (cc) (
        moved-Inv k nums s v i l l' s.gen s.out e (ap not_gone f)
          (λ w. omega (arith, ap (in_output w) f)) (omega (arith, ap not_shut h))
          (v.gen_order i l e) refl)
  on_output_end-Inv i l copying taking e f h m = cc
  on_output_end-Inv i l copying (giving n) e f h m = cc
  on_output_end-Inv i l (holding n) p e f h m = cc
  on_output_end-Inv i l gone p e f h m = cc

  on_gen_end-Inv : (g : GenPc) {s' : State} → s.gen ≡ g → on_gen_end s g ≡ moves s' → Inv k nums s'
  unfolding on_gen_end
  on_gen_end-Inv (emitting []) f m =
      subst (Inv k nums) {x = record s { gen = emitted }} (cc) (record {
        size = v.size;
        numbers = λ w. omega (arith, v.numbers w, ap (in_gen w) f);
        lines_order = v.lines_order;
        gen_order = λ i l e. omega arith;
        waited = v.waited;
        over_behind = v.over_behind;
      })
  on_gen_end-Inv (emitting (n ∷ ns)) f m = cc
  on_gen_end-Inv emitted f m = cc

  on_wait-Inv :
      (b c : Bool) {s' : State} → all_gone s.lines ≡ c → on_wait s b c ≡ moves s' → Inv k nums s'
  unfolding on_wait
  on_wait-Inv false true f m = subst (Inv k nums) {x = record s { closed = true }} (cc) (record {
    size = v.size;
    numbers = v.numbers;
    lines_order = v.lines_order;
    gen_order = v.gen_order;
    waited = λ e. all_gone-total s.lines f;
    over_behind = λ e. refl;
  })
  on_wait-Inv false false f m = cc
  on_wait-Inv true c f m = cc

  on_end-Inv :
      (p : MainPc) (b : Bool) {s' : State} → s.closed ≡ b → on_end s p b ≡ moves s' → Inv k nums s'
  unfolding on_end
  on_end-Inv ranging true f m = subst (Inv k nums) {x = record s { main = over }} (cc) (record {
    size = v.size;
    numbers = v.numbers;
    lines_order = v.lines_order;
    gen_order = v.gen_order;
    waited = v.waited;
    over_behind = λ e. f;
  })
  on_end-Inv ranging false f m = cc
  on_end-Inv over b f m = cc

  of_line-Inv :
      (f : Line → Outcome) (o : Option Line) {s' : State}
      → ((l : Line) → o ≡ some l → f l ≡ moves s' → Inv k nums s')
      → of_line f o ≡ moves s'
      → Inv k nums s'
  unfolding of_line
  of_line-Inv f none h m = cc
  of_line-Inv f (some l) h m = h l refl m

  pub step-Inv : (a : Action) {s' : State} → step s a ≡ moves s' → Inv k nums s'
  unfolding step
  step-Inv (emit i) m =
      of_line-Inv _ (get_elem? s.lines i) (λ l e h. on_emit-Inv i l s.gen l.sq e refl refl h) m
  step-Inv end_gen m = on_gen_end-Inv s.gen refl m
  step-Inv (give i) m =
      of_line-Inv _ (get_elem? s.lines i) (λ l e h. on_give-Inv i l l.sq l.output e refl refl h) m
  step-Inv (end_sq i) m =
      of_line-Inv _ (get_elem? s.lines i) (λ l e h. on_sq_end-Inv i l l.sq s.gen e refl refl h) m
  step-Inv (put i) m =
      of_line-Inv _ (get_elem? s.lines i)
        (λ l e h. on_output-Inv i l l.output s.closed s.main e refl h) m
  step-Inv (end_output i) m =
      of_line-Inv _ (get_elem? s.lines i)
        (λ l e h. on_output_end-Inv i l l.output l.sq e refl refl h) m
  step-Inv close_out m = on_wait-Inv s.closed (all_gone s.lines) refl m
  step-Inv end_loop m = on_end-Inv s.main s.closed refl m

pub Reach-Inv : {k : ℕ} {nums : List ℕ} {s : State} → Reach k nums s → Inv k nums s
Reach-Inv {k} {nums} (start e) = subst (Inv k nums) (sym e) (new-Inv k nums)
Reach-Inv {k} {nums} (later {s = s} r a h) = step-Inv k nums s (Reach-Inv r) a h
