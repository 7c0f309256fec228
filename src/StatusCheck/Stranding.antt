-- ===== src/StatusCheck/Stranding.antt =====
-- What the loop leaves behind where it stops early.
use mathlib.Core.Path.{subst}
use awesome_patterns.Base.{
  ℕ, ◌≡◌, refl, sym, ap, ◌∙◌, Bool, true, false, List, Option, none, some, get_elem?, set, total,
  get_elem?-set_other, Steps, stay, go,
}
use awesome_patterns.Gather.{Evaluated, result, failed}
use awesome_patterns.StatusCheck.{
  FetchPc, starting, sending, gone, over, left, State, moves, Action, begin, deliver, close_results,
  continue_main, at, is_done, on_begin, on_deliver, all_gone, on_wait, on_main, step, Reach,
}
use awesome_patterns.StatusCheck.Responses.{over-received}

module _ {R E : Type 0} where
  abbrev pub Next : State R E → State R E → Type 0
  Next s t = (a : Action) × (step s a ≡ moves t)

  -- A goroutine at its send, with the loop left.
  abbrev pub IsStranded : ℕ → E → Evaluated R E → State R E → Type 0
  IsStranded i y x s = (get_elem? s.fetches i ≡ some (sending x)) × (s.main ≡ left y)

  moved-IsStranded :
      (i : ℕ) (y : E) (x : Evaluated R E) (t : State R E) {s' : State R E}
      → IsStranded i y x t
      → moves t ≡ moves s'
      → IsStranded i y x s'
  moved-IsStranded i y x t {s'} k h = let e : t ≡ s' = cc in subst (IsStranded i y x) e k

  module _ (i : ℕ) (y : E) (x : Evaluated R E) (s : State R E) (k : IsStranded i y x s) where
    -- Another goroutine goes on.
    other_moved :
        (j : ℕ) (u : Evaluated R E) (p : FetchPc R E)
        → get_elem? s.fetches j ≡ some (starting u)
        → get_elem? (set s.fetches j p) i ≡ some (sending x)
    other_moved j u p g =
        get_elem?-set_other s.fetches j i p (λ e. cc (sym g ∙ ap (get_elem? s.fetches) e ∙ k.0))
        ∙ k.0

    on_begin-IsStranded :
        (j : ℕ) (o : Option (FetchPc R E)) (b d : Bool) {s' : State R E}
        → get_elem? s.fetches j ≡ o
        → on_begin s j o b d ≡ moves s'
        → IsStranded i y x s'
    unfolding on_begin
    on_begin-IsStranded j (some (starting u)) true d g h =
        moved-IsStranded i y x (record (at s j gone) { signalled = false })
          (other_moved j u gone g, k.1) h
    on_begin-IsStranded j (some (starting u)) false true g h =
        moved-IsStranded i y x (at s j gone) (other_moved j u gone g, k.1) h
    on_begin-IsStranded j (some (starting u)) false false g h =
        moved-IsStranded i y x (at s j (sending u)) (other_moved j u (sending u) g, k.1) h
    on_begin-IsStranded j (some (sending u)) b d g h = cc
    on_begin-IsStranded j (some gone) b d g h = cc
    on_begin-IsStranded j none b d g h = cc

    on_deliver-IsStranded :
        (j : ℕ) (o : Option (FetchPc R E)) {s' : State R E}
        → on_deliver s j o (left y) ≡ moves s'
        → IsStranded i y x s'
    unfolding on_deliver
    on_deliver-IsStranded j (some (sending (result r))) h = cc
    on_deliver-IsStranded j (some (sending (failed e))) h = cc
    on_deliver-IsStranded j (some (starting u)) h = cc
    on_deliver-IsStranded j (some gone) h = cc
    on_deliver-IsStranded j none h = cc

    on_wait-IsStranded :
        (b c : Bool) {s' : State R E} → on_wait s b c ≡ moves s' → IsStranded i y x s'
    unfolding on_wait
    on_wait-IsStranded false true h =
        moved-IsStranded i y x (record s { results_closed = true }) k h
    on_wait-IsStranded false false h = cc
    on_wait-IsStranded true c h = cc

    step-IsStranded : (a : Action) {s' : State R E} → step s a ≡ moves s' → IsStranded i y x s'
    unfolding step on_main
    step-IsStranded (begin j) h =
        on_begin-IsStranded j (get_elem? s.fetches j) s.signalled (is_done s.main) refl h
    step-IsStranded (deliver j) h =
        on_deliver-IsStranded j (get_elem? s.fetches j)
          (sym (ap (on_deliver s j (get_elem? s.fetches j)) k.1) ∙ h)
    step-IsStranded close_results h = on_wait-IsStranded s.results_closed (all_gone s.fetches) h
    step-IsStranded continue_main h = cc (sym (ap (λ m. on_main s m s.results_closed) k.1) ∙ h)

  Steps-IsStranded :
      (i : ℕ) (y : E) (x : Evaluated R E) {s t : State R E}
      → Steps Next s t
      → IsStranded i y x s
      → IsStranded i y x t
  Steps-IsStranded i y x stay k = k
  Steps-IsStranded i y x (go {s = s} (a, h) r) k =
      Steps-IsStranded i y x r (step-IsStranded i y x s k a h)

  -- In each state of `v2`: at the end of its loop it has received the responses of all URLs, each as
  -- often as it was given, in some order, and no error; and where it has left the loop at an error, a
  -- goroutine that is at its send waits there on every run, so that it never ends.
  pub received_or_waiting :
      {answers : List (Evaluated R E)} {s : State R E}
      → Reach answers s
      → (s.main ≡ over
          → (w : Evaluated R E → ℕ) → total (λ r. w (result r)) s.responses ≡ total w answers)
        × ((i : ℕ) (y : E) (x : Evaluated R E) (t : State R E)
            → IsStranded i y x s
            → Steps Next s t
            → get_elem? t.fetches i ≡ some (sending x))
  received_or_waiting {answers} {s} r =
      (over-received r, λ i y x t k n. (Steps-IsStranded i y x n k).0)
