-- ===== src/Stages/Progress.antt =====
-- Each step of a pipeline leaves less to do.
use awesome_patterns.Base.{
  ℕ, zero, suc, ◌+◌, ◌≡◌, ◌<◌, ◌≤◌, refl, ap, Bool, true, false, [], ◌∷◌, Option, none, some,
  if◌then◌else◌, arith, length,
}
use awesome_patterns.Stages.{
  StagePc, receiving, sending, ended, Chain, generating, generated, stage, LoopPc, ranging, drained,
  left, State, Action, receive_at, finish_at, cancel_at, consume, end_loop, leave_loop, offer,
  has_ended, below, taken, receive, finish, cancel, with_chain, on_cancel, on_consume, on_end,
  on_leave, step,
}

abbrev pub loop_work : LoopPc → ℕ
loop_work ranging = 1
loop_work drained = 0
loop_work left = 0

module _ {A : Type 0} where
  -- The values that a chain holds, and the sends and ends that are left to its goroutines.
  abbrev pub load : Chain A → ℕ
  load (generating xs) = length xs
  load generated = 0
  load (stage f (sending y) up) = load up + 1
  load (stage f receiving up) = load up
  load (stage f ended up) = load up

  abbrev pub chain_work : Chain A → ℕ
  chain_work (generating xs) = length xs + 1
  chain_work generated = 0
  chain_work (stage f receiving up) = 1 + (chain_work up + load up)
  chain_work (stage f (sending y) up) = 2 + (chain_work up + load up)
  chain_work (stage f ended up) = chain_work up + load up

  abbrev pub work_left : State A → ℕ
  work_left s = chain_work s.chain + loop_work s.loop

  offer-less :
      (c : Chain A) {x : A} {c' : Chain A}
      → offer c ≡ some (x, c')
      → (chain_work c' < chain_work c) × (load c' < load c)
  unfolding offer
  offer-less (generating []) e = cc
  offer-less (generating (y ∷ ys)) e = ground arith
  offer-less generated e = cc
  offer-less (stage f receiving up) e = cc
  offer-less (stage f (sending y) up) e = ground arith
  offer-less (stage f ended up) e = cc

  -- A chain with less to do that holds no more, if any.
  abbrev Less : Chain A → Option (Chain A) → Type 0
  Less c none = Unit
  Less c (some c') = (chain_work c' < chain_work c) × (load c' ≤ load c)

  below-Less :
      (f : A → A) (pc : StagePc A) (up : Chain A) (o : Option (Chain A))
      → Less up o
      → Less (stage f pc up) (below f pc o)
  unfolding below
  below-Less f pc up none h = tt
  below-Less f receiving up (some c) h = omega arith
  below-Less f (sending y) up (some c) h = omega arith
  below-Less f ended up (some c) h = omega arith

  taken-Less :
      (f : A → A) (up : Chain A) (o : Option (A × Chain A))
      → offer up ≡ o
      → Less (stage f receiving up) (taken f o)
  unfolding taken
  taken-Less f up none e = tt
  taken-Less f up (some (x, c)) e = let l = offer-less up e in omega arith

  receive-Less : (c : Chain A) (n : ℕ) → Less c (receive c n)
  unfolding receive
  receive-Less (generating xs) n = tt
  receive-Less generated n = tt
  receive-Less (stage f pc up) (suc n) = below-Less f pc up (receive up n) (receive-Less up n)
  receive-Less (stage f receiving up) zero = taken-Less f up (offer up) refl
  receive-Less (stage f (sending y) up) zero = tt
  receive-Less (stage f ended up) zero = tt

  closed-Less :
      (f : A → A) (up : Chain A) (b : Bool)
      → Less (stage f receiving up) (if b then some (stage f ended up) else none)
  closed-Less f up true = omega arith
  closed-Less f up false = tt

  finish-Less : (c : Chain A) (n : ℕ) → Less c (finish c n)
  unfolding finish
  finish-Less (generating []) zero = omega arith
  finish-Less (generating []) (suc n) = tt
  finish-Less (generating (x ∷ xs)) n = tt
  finish-Less generated n = tt
  finish-Less (stage f pc up) (suc n) = below-Less f pc up (finish up n) (finish-Less up n)
  finish-Less (stage f receiving up) zero = closed-Less f up (has_ended up)
  finish-Less (stage f (sending y) up) zero = tt
  finish-Less (stage f ended up) zero = tt

  cancel-Less : (c : Chain A) (n : ℕ) → Less c (cancel c n)
  unfolding cancel
  cancel-Less (generating []) n = tt
  cancel-Less (generating (x ∷ xs)) zero = omega arith
  cancel-Less (generating (x ∷ xs)) (suc n) = tt
  cancel-Less generated n = tt
  cancel-Less (stage f pc up) (suc n) = below-Less f pc up (cancel up n) (cancel-Less up n)
  cancel-Less (stage f (sending y) up) zero = omega arith
  cancel-Less (stage f receiving up) zero = tt
  cancel-Less (stage f ended up) zero = tt

  module _ (s : State A) where
    with_chain-lt :
        (o : Option (Chain A)) {s' : State A}
        → Less s.chain o
        → with_chain s o ≡ some s'
        → work_left s' < work_left s
    unfolding with_chain
    with_chain-lt none h e = cc
    with_chain-lt (some c) h e = ground (arith, h)

    on_cancel-lt :
        (n : ℕ) (l : LoopPc) {s' : State A} → on_cancel s n l ≡ some s' → work_left s' < work_left s
    unfolding on_cancel
    on_cancel-lt n ranging e = cc
    on_cancel-lt n drained e = with_chain-lt (cancel s.chain n) (cancel-Less s.chain n) e
    on_cancel-lt n left e = with_chain-lt (cancel s.chain n) (cancel-Less s.chain n) e

    on_consume-lt :
        (l : LoopPc) (o : Option (A × Chain A)) {s' : State A}
        → offer s.chain ≡ o
        → on_consume s l o ≡ some s'
        → work_left s' < work_left s
    unfolding on_consume
    on_consume-lt ranging (some (v, c)) g e = let l = offer-less s.chain g in ground arith
    on_consume-lt ranging none g e = cc
    on_consume-lt drained o g e = cc
    on_consume-lt left o g e = cc

    on_end-lt :
        (l : LoopPc) (b : Bool) {s' : State A}
        → s.loop ≡ l
        → on_end s l b ≡ some s'
        → work_left s' < work_left s
    unfolding on_end
    on_end-lt ranging true f e = ground (arith, ap loop_work f)
    on_end-lt ranging false f e = cc
    on_end-lt drained b f e = cc
    on_end-lt left b f e = cc

    on_leave-lt :
        (l : LoopPc) {s' : State A}
        → s.loop ≡ l
        → on_leave s l ≡ some s'
        → work_left s' < work_left s
    unfolding on_leave
    on_leave-lt ranging f e = ground (arith, ap loop_work f)
    on_leave-lt drained f e = cc
    on_leave-lt left f e = cc

    pub step-lt : (a : Action) {s' : State A} → step s a ≡ some s' → work_left s' < work_left s
    unfolding step
    step-lt (receive_at n) e = with_chain-lt (receive s.chain n) (receive-Less s.chain n) e
    step-lt (finish_at n) e = with_chain-lt (finish s.chain n) (finish-Less s.chain n) e
    step-lt (cancel_at n) e = on_cancel-lt n s.loop e
    step-lt consume e = on_consume-lt s.loop (offer s.chain) refl e
    step-lt end_loop e = on_end-lt s.loop (has_ended s.chain) refl e
    step-lt leave_loop e = on_leave-lt s.loop refl e
