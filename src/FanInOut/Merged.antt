-- ===== src/FanInOut/Merged.antt =====
-- What the loop of the program receives.
use awesome_patterns.Base.{
  ℕ, suc, ◌+◌, ◌≡◌, ◌≢◌, ◌<◌, ◌≤◌, refl, ap, Bool, true, false, List, [], ◌∷◌, Option, none, some,
  get_elem?, arith, length, total, total-get_elem?,
}
use awesome_patterns.FanInOut.{
  GenPc, emitting, emitted, SqPc, taking, giving, shut, OutputPc, copying, holding, gone, Line,
  MainPc, ranging, over, State, panics, square, on_output, of_line, put, step, Reach,
}
use awesome_patterns.FanInOut.Invariant.{
  in_gen, in_sq, in_output, in_line, not_gone, not_shut, not_emitted, gone_line, Inv, none_left,
}
use awesome_patterns.FanInOut.Preservation.{Reach-Inv}

total_none :
    {A : Type 0} (w : A → ℕ) (xs : List A)
    → ((i : ℕ) (x : A) → get_elem? xs i ≡ some x → w x ≡ 0)
    → total w xs ≡ 0
total_none w [] h = refl
total_none w (x ∷ xs) h = omega (arith, h 0 x refl, total_none w xs (λ i y e. h (suc i) y e))

first_of : {A : Type 0} (xs : List A) → 0 < length xs → (x : A) × (get_elem? xs 0 ≡ some x)
first_of [] h = absurd (omega arith)
first_of (x ∷ xs) h = (x, refl)

-- A line that is through holds no number.
through-in_line :
    (w : ℕ → ℕ) (p : SqPc) (o : OutputPc)
    → not_shut p ≤ not_gone o
    → not_gone o ≡ 0
    → in_sq w p + in_output w o ≡ 0
through-in_line w shut gone h e = refl
through-in_line w taking gone h e = absurd (omega arith)
through-in_line w (giving n) gone h e = absurd (omega arith)
through-in_line w p copying h e = absurd (omega arith)
through-in_line w p (holding n) h e = absurd (omega arith)

emitted-in_gen : (w : ℕ → ℕ) (g : GenPc) → not_emitted g ≡ 0 → in_gen w g ≡ 0
emitted-in_gen w emitted e = refl
emitted-in_gen w (emitting ns) e = absurd (omega arith)

module _ (k : ℕ) (nums : List ℕ) (s : State) (v : Inv k nums s)
    (all : total gone_line s.lines ≡ 0) where
  pub line_gone : (i : ℕ) (l : Line) → get_elem? s.lines i ≡ some l → not_gone l.output ≡ 0
  line_gone i l e = omega (arith, all, total-get_elem? gone_line s.lines i e)

  pub line_shut : (i : ℕ) (l : Line) → get_elem? s.lines i ≡ some l → not_shut l.sq ≡ 0
  line_shut i l e = omega (arith, v.lines_order i l e, line_gone i l e)

  -- Where there is a goroutine behind the generator, it has ended too.
  pub gen_emitted : 0 < k → not_emitted s.gen ≡ 0
  gen_emitted h =
      let (l, e) = first_of s.lines (omega (arith, v.size)) in
      omega (arith, v.gen_order 0 l e, line_shut 0 l e)

  lines_through : (w : ℕ → ℕ) → total (in_line w) s.lines ≡ 0
  lines_through w =
      total_none (in_line w) s.lines
        (λ i l e. through-in_line w l.sq l.output (v.lines_order i l e) (line_gone i l e))

module _ (k : ℕ) (nums : List ℕ) (s : State) (v : Inv k nums s) where
  on_output-safe :
      (i : ℕ) (l : Line) (p : OutputPc) (b : Bool) (q : MainPc)
      → get_elem? s.lines i ≡ some l
      → l.output ≡ p
      → s.closed ≡ b
      → on_output s i l p b q ≢ panics
  unfolding on_output
  on_output-safe i l (holding n) true q e f g m =
      absurd (none_left k nums s v i l e (ap not_gone f) g)
  on_output-safe i l (holding n) false ranging e f g m = cc
  on_output-safe i l (holding n) false over e f g m = cc
  on_output-safe i l copying b q e f g m = cc
  on_output-safe i l gone b q e f g m = cc

  -- A send that is made is never one on the closed channel.
  put-safe :
      (i : ℕ) (o : Option Line)
      → get_elem? s.lines i ≡ o
      → of_line (λ l. on_output s i l l.output s.closed s.main) o ≢ panics
  unfolding of_line
  put-safe i none e m = cc
  put-safe i (some l) e m = on_output-safe i l l.output s.closed s.main e refl refl m

-- Where at least one goroutine squares, in each state of the program: a goroutine of `merge` does not
-- send on the channel that is closed; and when the loop is over, it has received the square of each of
-- the numbers, as a 64-bit word, as often as the number was given, in some order.
pub merge-squares :
    {k : ℕ} {nums : List ℕ} {s : State}
    → Reach k nums s
    → 0 < k
    → ((i : ℕ) → step s (put i) ≢ panics)
      × (s.main ≡ over → (w : ℕ → ℕ) → total w s.out ≡ total (λ n. w (square n)) nums)
unfolding step
merge-squares {k} {nums} {s} r h =
    let v = Reach-Inv r in
    (
      λ i. put-safe k nums s v i (get_elem? s.lines i) refl,
      λ f w.
          let all = v.waited (v.over_behind f) in
          omega (
            arith,
            v.numbers w,
            lines_through k nums s v all w,
            emitted-in_gen w s.gen (gen_emitted k nums s v all h),
          ),
    )
