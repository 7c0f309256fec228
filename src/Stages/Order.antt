-- ===== src/Stages/Order.antt =====
-- What leaves a pipeline, and in which order.
use mathlib.Core.Path.{subst}
use awesome_patterns.Base.{
  ℕ, zero, suc, ◌≡◌, ◌*◌, ◌%◌, ◌^◌, refl, sym, ap, ◌∙◌, Bool, true, false, List, [], ◌∷◌, ◌++◌, map,
  fun_ext, append-nil, append_assoc, Option, none, some, if◌then◌else◌, arith,
}
use awesome_patterns.Stages.{
  StagePc, receiving, sending, ended, Chain, generating, generated, stage, LoopPc, ranging, drained,
  left, State, Action, receive_at, finish_at, cancel_at, consume, end_loop, leave_loop, multiply,
  add, new, offer, has_ended, below, taken, receive, finish, cancel, with_chain, on_cancel,
  on_consume, on_end, on_leave, step, start_of, Reach, start, later,
}

module _ {A : Type 0} where
  -- What is still to come out of a chain where nothing is cancelled.
  abbrev pub pending : Chain A → List A
  pending (generating xs) = xs
  pending generated = []
  pending (stage f receiving up) = map f (pending up)
  pending (stage f (sending y) up) = y ∷ map f (pending up)
  pending (stage f ended up) = []

  -- A value through all stages.
  abbrev pub through : List (A → A) → A → A
  through [] x = x
  through (f ∷ fs) x = f (through fs x)

  new-pending : (fs : List (A → A)) (xs : List A) → pending (new fs xs) ≡ map (through fs) xs
  unfolding new
  new-pending [] xs = sym (map_self xs)
    where
      map_self : (ys : List A) → map (λ x. x) ys ≡ ys
      map_self [] = refl
      map_self (y ∷ ys) = ap (λ zs. y ∷ zs) (map_self ys)
  new-pending (f ∷ fs) xs = ap (map f) (new-pending fs xs) ∙ maps xs
    where
      maps : (ys : List A) → map f (map (through fs) ys) ≡ map (through (f ∷ fs)) ys
      maps [] = refl
      maps (y ∷ ys) = ap (λ zs. f (through fs y) ∷ zs) (maps ys)

  offer-pending :
      (c : Chain A) {x : A} {c' : Chain A} → offer c ≡ some (x, c') → pending c ≡ x ∷ pending c'
  unfolding offer
  offer-pending (generating []) e = cc
  offer-pending (generating (y ∷ ys)) e =
      ap (λ o. elim o [ none ↦ y ∷ ys | some p ↦ p.0 ∷ pending p.1 ]) e
  offer-pending generated e = cc
  offer-pending (stage f receiving up) e = cc
  offer-pending (stage f (sending y) up) e =
      ap (λ o. elim o [ none ↦ y ∷ map f (pending up) | some p ↦ p.0 ∷ pending p.1 ]) e
  offer-pending (stage f ended up) e = cc

  has_ended-pending : (c : Chain A) → has_ended c ≡ true → pending c ≡ []
  unfolding has_ended
  has_ended-pending (generating xs) e = cc
  has_ended-pending generated e = refl
  has_ended-pending (stage f receiving up) e = cc
  has_ended-pending (stage f (sending y) up) e = cc
  has_ended-pending (stage f ended up) e = refl

  abbrev Same : List A → Option (Chain A) → Type 0
  Same xs none = Unit
  Same xs (some c) = pending c ≡ xs

  below-Same :
      (f : A → A) (pc : StagePc A) (up : Chain A) (o : Option (Chain A))
      → Same (pending up) o
      → Same (pending (stage f pc up)) (below f pc o)
  unfolding below
  below-Same f pc up none h = tt
  below-Same f receiving up (some c) h = ap (map f) h
  below-Same f (sending y) up (some c) h = ap (λ ys. y ∷ map f ys) h
  below-Same f ended up (some c) h = refl

  taken-Same :
      (f : A → A) (up : Chain A) (o : Option (A × Chain A))
      → offer up ≡ o
      → Same (map f (pending up)) (taken f o)
  unfolding taken
  taken-Same f up none e = tt
  taken-Same f up (some (x, c)) e = ap (map f) (sym (offer-pending up e))

  receive-Same : (c : Chain A) (n : ℕ) → Same (pending c) (receive c n)
  unfolding receive
  receive-Same (generating xs) n = tt
  receive-Same generated n = tt
  receive-Same (stage f pc up) (suc n) = below-Same f pc up (receive up n) (receive-Same up n)
  receive-Same (stage f receiving up) zero = taken-Same f up (offer up) refl
  receive-Same (stage f (sending y) up) zero = tt
  receive-Same (stage f ended up) zero = tt

  closed-Same :
      (f : A → A) (up : Chain A) (b : Bool)
      → has_ended up ≡ b
      → Same (map f (pending up)) (if b then some (stage f ended up) else none)
  closed-Same f up true e = ap (map f) (sym (has_ended-pending up e))
  closed-Same f up false e = tt

  finish-Same : (c : Chain A) (n : ℕ) → Same (pending c) (finish c n)
  unfolding finish
  finish-Same (generating []) zero = refl
  finish-Same (generating []) (suc n) = tt
  finish-Same (generating (x ∷ xs)) n = tt
  finish-Same generated n = tt
  finish-Same (stage f pc up) (suc n) = below-Same f pc up (finish up n) (finish-Same up n)
  finish-Same (stage f receiving up) zero = closed-Same f up (has_ended up) refl
  finish-Same (stage f (sending y) up) zero = tt
  finish-Same (stage f ended up) zero = tt

  -- What a pipeline has sent to the loop, given all that it is to send.
  abbrev pub Sent : List A → State A → LoopPc → Type 0
  Sent all s ranging = s.out ++ pending s.chain ≡ all
  Sent all s drained = s.out ≡ all
  Sent all s left = (rest : List A) × (s.out ++ rest ≡ all)

  kept-Sent :
      (all : List A) (l : LoopPc) (t : State A) {s' : State A}
      → t.loop ≡ l
      → Sent all t l
      → some t ≡ some s'
      → Sent all s' s'.loop
  kept-Sent all l t {s'} f h e =
      let p : t ≡ s' = cc in subst (λ u. Sent all u u.loop) p (subst (Sent all t) (sym f) h)

  module _ (all : List A) (s : State A) where
    with_chain-Sent :
        (l : LoopPc) (o : Option (Chain A)) {s' : State A}
        → s.loop ≡ l
        → Sent all s l
        → (l ≡ ranging → Same (pending s.chain) o)
        → with_chain s o ≡ some s'
        → Sent all s' s'.loop
    unfolding with_chain
    with_chain-Sent l none f h k e = cc
    with_chain-Sent ranging (some c) f h k e =
        kept-Sent all ranging (record s { chain = c }) f (ap (λ ys. s.out ++ ys) (k refl) ∙ h) e
    with_chain-Sent drained (some c) f h k e = kept-Sent all drained (record s { chain = c }) f h e
    with_chain-Sent left (some c) f h k e = kept-Sent all left (record s { chain = c }) f h e

    on_cancel-Sent :
        (n : ℕ) (l : LoopPc) {s' : State A}
        → s.loop ≡ l
        → Sent all s l
        → on_cancel s n l ≡ some s'
        → Sent all s' s'.loop
    unfolding on_cancel
    on_cancel-Sent n ranging f h e = cc
    on_cancel-Sent n drained f h e =
        with_chain-Sent drained (cancel s.chain n) f h (λ l. absurd (cc l)) e
    on_cancel-Sent n left f h e = with_chain-Sent left (cancel s.chain n) f h (λ l. absurd (cc l)) e

    on_consume-Sent :
        (l : LoopPc) (o : Option (A × Chain A)) {s' : State A}
        → s.loop ≡ l
        → offer s.chain ≡ o
        → Sent all s l
        → on_consume s l o ≡ some s'
        → Sent all s' s'.loop
    unfolding on_consume
    on_consume-Sent ranging (some (v, c)) f g h e =
        let q = record s { chain = c; out = s.out ++ v ∷ [] } in
        kept-Sent all ranging q f
          (append_assoc s.out (v ∷ []) (pending c)
            ∙ ap (λ ys. s.out ++ ys) (sym (offer-pending s.chain g))
            ∙ h)
          e
    on_consume-Sent ranging none f g h e = cc
    on_consume-Sent drained o f g h e = cc
    on_consume-Sent left o f g h e = cc

    on_end-Sent :
        (l : LoopPc) (b : Bool) {s' : State A}
        → s.loop ≡ l
        → has_ended s.chain ≡ b
        → Sent all s l
        → on_end s l b ≡ some s'
        → Sent all s' s'.loop
    unfolding on_end
    on_end-Sent ranging true f g h e =
        kept-Sent all drained (record s { loop = drained }) refl
          (sym (append-nil s.out) ∙ ap (λ ys. s.out ++ ys) (sym (has_ended-pending s.chain g)) ∙ h)
          e
    on_end-Sent ranging false f g h e = cc
    on_end-Sent drained b f g h e = cc
    on_end-Sent left b f g h e = cc

    on_leave-Sent :
        (l : LoopPc) {s' : State A}
        → s.loop ≡ l
        → Sent all s l
        → on_leave s l ≡ some s'
        → Sent all s' s'.loop
    unfolding on_leave
    on_leave-Sent ranging f h e =
        kept-Sent all left (record s { loop = left }) refl (pending s.chain, h) e
    on_leave-Sent drained f h e = cc
    on_leave-Sent left f h e = cc

    step-Sent :
        (a : Action) {s' : State A} → Sent all s s.loop → step s a ≡ some s' → Sent all s' s'.loop
    unfolding step
    step-Sent (receive_at n) h e =
        with_chain-Sent s.loop (receive s.chain n) refl h (λ l. receive-Same s.chain n) e
    step-Sent (finish_at n) h e =
        with_chain-Sent s.loop (finish s.chain n) refl h (λ l. finish-Same s.chain n) e
    step-Sent (cancel_at n) h e = on_cancel-Sent n s.loop refl h e
    step-Sent consume h e = on_consume-Sent s.loop (offer s.chain) refl refl h e
    step-Sent end_loop h e = on_end-Sent s.loop (has_ended s.chain) refl refl h e
    step-Sent leave_loop h e = on_leave-Sent s.loop refl h e

  -- In a reachable state of a pipeline of some stages on some integers: while the loop runs, what it
  -- has received and what is still to come are together the integers, each through all stages, in
  -- their order; at its end it has received all these; and where it was left early, the first of these.
  pub outputs-Sent :
      (fs : List (A → A)) (integers : List A) {s : State A}
      → Reach fs integers s
      → Sent (map (through fs) integers) s s.loop
  unfolding start_of
  outputs-Sent fs integers (start e) =
      subst (λ t. Sent (map (through fs) integers) t t.loop) (sym e) (new-pending fs integers)
  outputs-Sent fs integers (later {s = s} r a h) =
      step-Sent (map (through fs) integers) s a (outputs-Sent fs integers r) h

-- The stages of the calls in `run`, for the additive that is passed to `add`.
abbrev pub run_stages : ℕ → List (ℕ → ℕ)
run_stages additive = multiply 2 ∷ add additive ∷ multiply 2 ∷ []

-- At the end of its loop, `run` has received 4 times each of the integers, as 64-bit words and in
-- their order, whatever is to be added.
pub run-multiplies :
    (additive : ℕ) (integers : List ℕ) {s : State ℕ}
    → Reach (run_stages additive) integers s
    → s.loop ≡ drained
    → s.out ≡ map (λ i. i * 4 % 2 ^ 64) integers
unfolding multiply add
run-multiplies additive integers {s} r f =
    subst (Sent (map (through (run_stages additive)) integers) s) f
      (outputs-Sent (run_stages additive) integers r)
    ∙ ap (λ g. map g integers) (fun_ext (λ i. omega arith))
