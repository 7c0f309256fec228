-- ===== src/Gather/Network/Invariant.antt =====
-- How the goroutines, the channels and the gathering loop stand to one another.
use mathlib.Core.Path.{subst}
use awesome_patterns.Base.{
  ℕ, ◌+◌, ◌≡◌, ◌⊎◌, refl, sym, ◌∙◌, false, [], some, arith, All, length, length-set,
  length-replicate, get_elem?, total, total-set, total-replicate, indexed-set, get_elem?-replicate,
}
use awesome_patterns.Gather.{Evaluated, result, failed}
use awesome_patterns.Gather.Network.{
  evaluating, OuterPc, selecting, sending, gone, Task, MainPc, gathering, returned, State,
  fresh_task, new, at,
}

abbrev pub rounds_left : MainPc → ℕ
rounds_left (gathering k) = k
rounds_left returned = 0

module _ {R E : Type 0} where
  -- What an ended goroutine has sent to the one channel, weighed, and to the other.
  abbrev pub gone_result : (R → ℕ) → OuterPc R E → ℕ
  gone_result w (gone (result r)) = w r
  gone_result w _ = 0

  abbrev pub gone_error : (E → ℕ) → OuterPc R E → ℕ
  gone_error w (gone (failed e)) = w e
  gone_error w _ = 0

module _ {R E : Type 0} (evaluate : ℕ → Evaluated R E) (timeout : ℕ → E) where
  -- The outcome of an evaluator: what it returned, or its timeout.
  abbrev pub Origin : ℕ → Evaluated R E → Type 0
  Origin i v = (v ≡ evaluate i) ⊎ (v ≡ failed (timeout i))

  abbrev pub Chosen : ℕ → OuterPc R E → Type 0
  Chosen i selecting = Unit
  Chosen i (sending v) = Origin i v
  Chosen i (gone v) = Origin i v

  pub record IsSound (i : ℕ) (t : Task R E) : Type 0 where
    pub ch_open : t.ch.closed ≡ false
    pub ech_open : t.ech.closed ≡ false
    pub ch_room : t.ch.capacity ≡ 1
    pub ech_room : t.ech.capacity ≡ 1
    pub unstored : t.inner ≡ evaluating → (t.ch.buffer ≡ []) × (t.ech.buffer ≡ [])
    pub results : All (λ r. result r ≡ evaluate i) t.ch.buffer
    pub errors : All (λ e. failed e ≡ evaluate i) t.ech.buffer
    pub chosen : Chosen i t.outer

  pub record Inv (n : ℕ) (s : State R E) : Type 0 where
    pub size : length s.tasks ≡ n
    pub gather_open : s.channels.gather.closed ≡ false
    pub errors_open : s.channels.errors.closed ≡ false
    pub gather_room : s.channels.gather.capacity ≡ n
    pub errors_room : s.channels.errors.capacity ≡ n
    pub each : (i : ℕ) (t : Task R E) → get_elem? s.tasks i ≡ some t → IsSound i t
    pub gathered :
        (w : R → ℕ)
        → total w s.out + total w s.channels.gather.buffer
          ≡ total (λ t. gone_result w t.outer) s.tasks
    pub gathered_errors :
        (w : E → ℕ)
        → total w s.errs + total w s.channels.errors.buffer
          ≡ total (λ t. gone_error w t.outer) s.tasks
    pub rounds : rounds_left s.main + length s.out + length s.errs ≡ n

  fresh_task-IsSound : (i : ℕ) → IsSound i fresh_task
  unfolding fresh_task
  fresh_task-IsSound i = record {
    ch_open = refl;
    ech_open = refl;
    ch_room = refl;
    ech_room = refl;
    unstored = λ e. (refl, refl);
    results = tt;
    errors = tt;
    chosen = tt;
  }

  pub new-Inv : (n : ℕ) → Inv n (new n)
  unfolding new fresh_task
  new-Inv n = record {
    size = length-replicate n fresh_task;
    gather_open = refl;
    errors_open = refl;
    gather_room = refl;
    errors_room = refl;
    each = λ i t e. subst (IsSound i) (get_elem?-replicate n i fresh_task e) (fresh_task-IsSound i);
    gathered = λ w. sym (total-replicate (λ t. gone_result w t.outer) n fresh_task refl);
    gathered_errors = λ w. sym (total-replicate (λ t. gone_error w t.outer) n fresh_task refl);
    rounds = omega arith;
  }

  module _ (n : ℕ) (s : State R E) (v : Inv n s) where
    -- The goroutines of one evaluator go on without a send to the shared channels.
    pub at-Inv :
        (i : ℕ) (t t' : Task R E)
        → get_elem? s.tasks i ≡ some t
        → ((w : R → ℕ) → gone_result w t.outer ≡ gone_result w t'.outer)
        → ((w : E → ℕ) → gone_error w t.outer ≡ gone_error w t'.outer)
        → IsSound i t'
        → Inv n (at s i t')
    at-Inv i t t' g a b h = record {
      size = length-set s.tasks i t' ∙ v.size;
      gather_open = v.gather_open;
      errors_open = v.errors_open;
      gather_room = v.gather_room;
      errors_room = v.errors_room;
      each = indexed-set IsSound s.tasks i t' h v.each;
      gathered = λ w.
          omega (arith, v.gathered w, a w, total-set (λ x. gone_result w x.outer) s.tasks i t' g);
      gathered_errors = λ w.
          omega
            (arith, v.gathered_errors w, b w, total-set (λ x. gone_error w x.outer) s.tasks i t' g);
      rounds = v.rounds;
    }
