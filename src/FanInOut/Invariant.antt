-- ===== src/FanInOut/Invariant.antt =====
-- Where the numbers are, and in which order the goroutines end.
use mathlib.Core.Path.{subst}
use awesome_patterns.Base.{
  ℕ, ◌+◌, ◌≡◌, ◌≢◌, ◌≤◌, refl, ◌∙◌, true, List, some, get_elem?, arith, length, length-set,
  length-replicate, total, total-set, total-get_elem?, total-replicate, indexed-set,
  get_elem?-replicate,
}
use awesome_patterns.FanInOut.{
  GenPc, emitting, emitted, SqPc, taking, giving, shut, OutputPc, copying, holding, gone, Line,
  over, State, square, fresh_line, new, at,
}

-- The numbers of the goroutines, weighed.
abbrev pub in_gen : (ℕ → ℕ) → GenPc → ℕ
in_gen w (emitting ns) = total (λ n. w (square n)) ns
in_gen w emitted = 0

abbrev pub in_sq : (ℕ → ℕ) → SqPc → ℕ
in_sq w taking = 0
in_sq w (giving n) = w n
in_sq w shut = 0

abbrev pub in_output : (ℕ → ℕ) → OutputPc → ℕ
in_output w copying = 0
in_output w (holding n) = w n
in_output w gone = 0

abbrev pub in_line : (ℕ → ℕ) → Line → ℕ
in_line w l = in_sq w l.sq + in_output w l.output

abbrev pub not_gone : OutputPc → ℕ
not_gone copying = 1
not_gone (holding n) = 1
not_gone gone = 0

abbrev pub not_shut : SqPc → ℕ
not_shut taking = 1
not_shut (giving n) = 1
not_shut shut = 0

abbrev pub not_emitted : GenPc → ℕ
not_emitted (emitting ns) = 1
not_emitted emitted = 0

abbrev pub gone_line : Line → ℕ
gone_line l = not_gone l.output

abbrev pub shut_line : Line → ℕ
shut_line l = not_shut l.sq

-- An `output` ends behind its `sq`.
abbrev pub InOrder : Line → Type 0
InOrder l = not_shut l.sq ≤ not_gone l.output

pub record Inv (k : ℕ) (nums : List ℕ) (s : State) : Type 0 where
  pub size : length s.lines ≡ k
  pub numbers :
      (w : ℕ → ℕ)
      → total w s.out + total (in_line w) s.lines + in_gen w s.gen ≡ total (λ n. w (square n)) nums
  pub lines_order : (i : ℕ) (l : Line) → get_elem? s.lines i ≡ some l → InOrder l
  pub gen_order :
      (i : ℕ) (l : Line) → get_elem? s.lines i ≡ some l → not_emitted s.gen ≤ not_shut l.sq
  pub waited : s.closed ≡ true → total gone_line s.lines ≡ 0
  pub over_behind : s.main ≡ over → s.closed ≡ true

pub new-Inv : (k : ℕ) (nums : List ℕ) → Inv k nums (new k nums)
unfolding new
new-Inv k nums = record {
  size = length-replicate k fresh_line;
  numbers = λ w. omega (arith, total-replicate (in_line w) k fresh_line refl);
  lines_order = λ i l g. subst InOrder (get_elem?-replicate k i fresh_line g) (omega arith);
  gen_order =
      λ i l g. subst (λ x. 1 ≤ not_shut x.sq) (get_elem?-replicate k i fresh_line g) (omega arith);
  waited = λ e. cc;
  over_behind = λ e. cc;
}

module _ (k : ℕ) (nums : List ℕ) (s : State) (v : Inv k nums s) where
  pub none_left :
      (i : ℕ) (l : Line) → get_elem? s.lines i ≡ some l → not_gone l.output ≡ 1 → s.closed ≢ true
  none_left i l g h e = absurd (omega (arith, v.waited e, total-get_elem? gone_line s.lines i g))

  -- A line goes on, with the generator and what the loop has received as they are then.
  pub moved-Inv :
      (i : ℕ) (l l' : Line) (g : GenPc) (out : List ℕ)
      → get_elem? s.lines i ≡ some l
      → not_gone l.output ≡ 1
      → ((w : ℕ → ℕ)
          → total w out + in_line w l' + in_gen w g ≡ total w s.out + in_line w l + in_gen w s.gen)
      → InOrder l'
      → not_emitted g ≤ not_shut l'.sq
      → not_emitted g ≡ not_emitted s.gen
      → Inv k nums (record (at s i l') { gen = g; out = out })
  moved-Inv i l l' g out e h n o p q = record {
    size = length-set s.lines i l' ∙ v.size;
    numbers = λ w. omega (arith, v.numbers w, n w, total-set (in_line w) s.lines i l' e);
    lines_order = indexed-set (λ j. InOrder) s.lines i l' o v.lines_order;
    gen_order =
        indexed-set (λ j x. not_emitted g ≤ not_shut x.sq) s.lines i l' p
          (λ j x f. omega (arith, q, v.gen_order j x f));
    waited = λ c. absurd (none_left i l e h c);
    over_behind = v.over_behind;
  }
