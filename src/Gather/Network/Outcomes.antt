-- ===== src/Gather/Network/Outcomes.antt =====
-- What `DivideAndConquer` returns.
use awesome_patterns.Base.{
  ℕ, ◌+◌, ◌≡◌, refl, ap, List, [], ◌∷◌, some, arith, length, get_elem?, total, total-get_elem?,
  length-total,
}
use awesome_patterns.Gather.{Evaluated, result, failed}
use awesome_patterns.Gather.Network.{
  OuterPc, selecting, sending, gone, Task, returned, State, Reach,
}
use awesome_patterns.Gather.Network.Invariant.{gone_result, gone_error, rounds_left, Origin, Chosen}
use awesome_patterns.Gather.Network.Preservation.{Reach-Inv}

module _ {R E : Type 0} where
  abbrev pub not_gone : OuterPc R E → ℕ
  not_gone (gone v) = 0
  not_gone _ = 1

  -- The goroutines that have ended sent a result or an error each.
  pub gone_counted :
      (ts : List (Task R E))
      → total (λ t. gone_result (λ r. 1) t.outer) ts
          + total (λ t. gone_error (λ e. 1) t.outer) ts
          + total (λ t. not_gone t.outer) ts
        ≡ length ts
  gone_counted [] = refl
  gone_counted (t ∷ ts) = omega (arith, gone_counted ts, one t.outer)
    where
      one : (c : OuterPc R E) → gone_result (λ r. 1) c + gone_error (λ e. 1) c + not_gone c ≡ 1
      one selecting = refl
      one (sending v) = refl
      one (gone (result r)) = refl
      one (gone (failed e)) = refl

module _ {R E : Type 0} (evaluate : ℕ → Evaluated R E) (timeout : ℕ → E) where
  -- Each evaluator has an outcome, what it returned or its timeout; the results and the errors of
  -- these outcomes are what was gathered, in some order.
  pub record IsGathered (n : ℕ) (s : State R E) : Type 0 where
    pub outcome :
        (i : ℕ) (t : Task R E)
        → get_elem? s.tasks i ≡ some t
        → (v : Evaluated R E) × (t.outer ≡ gone v) × Origin evaluate timeout i v
    pub tasks : length s.tasks ≡ n
    pub results : (w : R → ℕ) → total w s.out ≡ total (λ t. gone_result w t.outer) s.tasks
    pub errors : (w : E → ℕ) → total w s.errs ≡ total (λ t. gone_error w t.outer) s.tasks
    pub number : length s.out + length s.errs ≡ n

  gone_outcome :
      (i : ℕ) (c : OuterPc R E)
      → not_gone c ≡ 0
      → Chosen evaluate timeout i c
      → (v : Evaluated R E) × (c ≡ gone v) × Origin evaluate timeout i v
  gone_outcome i (gone v) e h = (v, refl, h)
  gone_outcome i selecting e h = absurd (omega arith)
  gone_outcome i (sending v) e h = absurd (omega arith)

  no_total : {A : Type 0} (w : A → ℕ) (xs : List A) → length xs ≡ 0 → total w xs ≡ 0
  no_total w [] e = refl
  no_total w (x ∷ xs) e = absurd (omega arith)

  -- When `DivideAndConquer` has returned, it has gathered one outcome of each evaluator, whatever
  -- the evaluators return and whichever timers fire.
  pub returned-IsGathered :
      {n : ℕ} {s : State R E} → Reach evaluate timeout n s → s.main ≡ returned → IsGathered n s
  returned-IsGathered {n} {s} r f =
      let v = Reach-Inv evaluate timeout r in
      let number : length s.out + length s.errs ≡ n = omega (arith, v.rounds, ap rounds_left f) in
      let all : (total (λ t. not_gone t.outer) s.tasks ≡ 0)
          × (length s.channels.gather.buffer ≡ 0)
          × (length s.channels.errors.buffer ≡ 0) =
        omega (
          arith,
          number,
          v.size,
          gone_counted s.tasks,
          v.gathered (λ x. 1),
          v.gathered_errors (λ x. 1),
          length-total s.out,
          length-total s.errs,
          length-total s.channels.gather.buffer,
          length-total s.channels.errors.buffer,
        ) in
      record {
        outcome = λ i t g.
            gone_outcome i t.outer
              (omega (arith, all.0, total-get_elem? (λ t. not_gone t.outer) s.tasks i g))
              (v.each i t g).chosen;
        tasks = v.size;
        results = λ w. omega (arith, v.gathered w, no_total w s.channels.gather.buffer all.1);
        errors = λ w. omega (arith, v.gathered_errors w, no_total w s.channels.errors.buffer all.2);
        number = number;
      }
