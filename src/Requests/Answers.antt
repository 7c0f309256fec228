-- ===== src/Requests/Answers.antt =====
-- What `barrier` returns, and what its return does to the requests that are not over.
use mathlib.Core.Path.{subst}
use awesome_patterns.Base.{
  ℕ, zero, suc, ◌+◌, ◌≡◌, ◌<◌, ◌≤◌, refl, sym, ap, ◌∙◌, true, false, List, [], ◌∷◌, ◌++◌, Option,
  none, some, get_elem?, set, map, length, arith, total, total-set, total-snoc, total-get_elem?,
  length-total, length-append,
}
use awesome_patterns.Channel.{Chan, try_send, try_receive}
use awesome_patterns.Gather.{Evaluated, result, failed}
use awesome_patterns.Requests.{
  RequestPc, asking, answered, MainPc, collecting, returned, State, panics, moves, Action, send,
  receive, finish, new, on_send, collected, on_receive, on_finish, step, Reach, start, later,
}

no_weight : {A : Type 0} (w : A → ℕ) (xs : List A) → length xs ≡ 0 → total w xs ≡ 0
no_weight w [] e = refl
no_weight w (x ∷ xs) e = absurd (omega arith)

module _ {R E : Type 0} where
  -- The answer that a request has still to send, and the error that was received, weighed.
  abbrev pub to_send : (Evaluated R E → ℕ) → RequestPc R E → ℕ
  to_send w (asking v) = w v
  to_send w answered = 0

  abbrev pub error_of : (Evaluated R E → ℕ) → MainPc E → ℕ
  error_of w (collecting k) = 0
  error_of w (returned none) = 0
  error_of w (returned (some e)) = w (failed e)

  abbrev HasRounds : ℕ → State R E → MainPc E → Type 0
  HasRounds n s (collecting k) = (k + length s.responses ≡ n) × (s.in_ch.closed ≡ false)
  HasRounds n s (returned none) = (length s.responses ≡ n) × (s.in_ch.closed ≡ true)
  HasRounds n s (returned (some e)) = s.in_ch.closed ≡ true

  record Inv (answers : List (Evaluated R E)) (s : State R E) : Type 0 where
    room : s.in_ch.capacity ≡ length answers
    rounds : HasRounds (length answers) s s.main
    numbers :
        (w : Evaluated R E → ℕ)
        → total w s.in_ch.buffer
            + total (λ r. w (result r)) s.responses
            + error_of w s.main
            + total (to_send w) s.requests
          ≡ total w answers

  total-asking :
      (w : Evaluated R E → ℕ) (vs : List (Evaluated R E))
      → total (to_send w) (map asking vs) ≡ total w vs
  total-asking w [] = refl
  total-asking w (v ∷ vs) = omega (arith, total-asking w vs)

  new-Inv : (answers : List (Evaluated R E)) → Inv answers (new answers)
  unfolding new
  new-Inv answers = record {
    room = refl;
    rounds = (omega arith, refl);
    numbers = λ w. omega (arith, total-asking w answers);
  }

  -- What a send finds, by the state of the loop.
  abbrev pub Sends : State R E → ℕ → MainPc E → Type 0
  Sends s i (collecting k) = (t : State R E) × (step s (send i) ≡ moves t)
  Sends s i (returned o) = step s (send i) ≡ panics

  module _ (answers : List (Evaluated R E)) (s : State R E) (v : Inv answers s) where
    kept :
        (m : MainPc E) (i : ℕ) (c : Chan (Evaluated R E))
        → c.closed ≡ s.in_ch.closed
        → HasRounds (length answers) s m
        → HasRounds
            (length answers)
            (record s { requests = set s.requests i answered; in_ch = c })
            m
    kept (collecting k) i c e h = (h.0, e ∙ h.1)
    kept (returned none) i c e h = (h.0, e ∙ h.1)
    kept (returned (some x)) i c e h = e ∙ h

    on_send-Inv :
        (i : ℕ) (o : Option (RequestPc R E)) {s' : State R E}
        → get_elem? s.requests i ≡ o
        → on_send s i o ≡ moves s'
        → Inv answers s'
    unfolding on_send try_send
    on_send-Inv i (some (asking x)) g h =
        let c = record (s.in_ch) { buffer = s.in_ch.buffer ++ x ∷ [] } in
        subst (Inv answers) {x = record s { requests = set s.requests i answered; in_ch = c }}
          (ground (arith, h))
          (record {
            room = v.room;
            rounds = kept s.main i c refl v.rounds;
            numbers = λ w. omega (
              arith,
              v.numbers w,
              total-snoc w s.in_ch.buffer x,
              total-set (to_send w) s.requests i answered g,
            );
          })
    on_send-Inv i (some answered) g h = cc
    on_send-Inv i none g h = cc

    received-Inv :
        (k : ℕ) (vs : List (Evaluated R E)) {s' : State R E}
        → s.main ≡ collecting (suc k)
        → s.in_ch.buffer ≡ vs
        → on_receive s (collecting (suc k)) ≡ moves s'
        → Inv answers s'
    unfolding on_receive try_receive collected
    received-Inv k [] f b h = absurd (ground (arith, b, h))
    received-Inv k (result r ∷ vs) f b h =
        let c = record (s.in_ch) { buffer = vs } in
        let held = subst (HasRounds (length answers) s) f v.rounds in
        subst (Inv answers)
          {x = record s { in_ch = c; main = collecting k; responses = s.responses ++ r ∷ [] }}
          (ground (arith, b, h))
          (record {
            room = v.room;
            rounds = (omega (arith, held.0, length-append s.responses (r ∷ [])), held.1);
            numbers = λ w. omega (
              arith,
              v.numbers w,
              ap (total w) b,
              ap (error_of w) f,
              total-snoc (λ x. w (result x)) s.responses r,
            );
          })
    received-Inv k (failed e ∷ vs) f b h =
        let c = record (s.in_ch) { buffer = vs; closed = true } in
        subst (Inv answers) {x = record s { in_ch = c; main = returned (some e) }}
          (ground (arith, b, h))
          (record {
            room = v.room;
            rounds = refl;
            numbers = λ w. omega (arith, v.numbers w, ap (total w) b, ap (error_of w) f);
          })

    on_receive-Inv :
        (m : MainPc E) {s' : State R E} → s.main ≡ m → on_receive s m ≡ moves s' → Inv answers s'
    unfolding on_receive
    on_receive-Inv (collecting (suc k)) f h = received-Inv k s.in_ch.buffer f refl h
    on_receive-Inv (collecting zero) f h = cc
    on_receive-Inv (returned o) f h = cc

    on_finish-Inv :
        (m : MainPc E) {s' : State R E} → s.main ≡ m → on_finish s m ≡ moves s' → Inv answers s'
    unfolding on_finish
    on_finish-Inv (collecting zero) f h =
        let held = subst (HasRounds (length answers) s) f v.rounds in
        subst (Inv answers)
          {x = record s { in_ch = record (s.in_ch) { closed = true }; main = returned none }} (cc)
          (record {
            room = v.room;
            rounds = (omega (arith, held.0), refl);
            numbers = λ w. omega (arith, v.numbers w, ap (error_of w) f);
          })
    on_finish-Inv (collecting (suc k)) f h = cc
    on_finish-Inv (returned o) f h = cc

    step-Inv : (a : Action) {s' : State R E} → step s a ≡ moves s' → Inv answers s'
    unfolding step
    step-Inv (send i) h = on_send-Inv i (get_elem? s.requests i) refl h
    step-Inv receive h = on_receive-Inv s.main refl h
    step-Inv finish h = on_finish-Inv s.main refl h

    send-Sends :
        (i : ℕ) (x : Evaluated R E) (m : MainPc E)
        → get_elem? s.requests i ≡ some (asking x)
        → HasRounds (length answers) s m
        → Sends s i m
    unfolding step on_send try_send
    send-Sends i x (collecting k) g h =
        let c = record (s.in_ch) { buffer = s.in_ch.buffer ++ x ∷ [] } in
        let fits : length s.in_ch.buffer < s.in_ch.capacity = omega (
          arith,
          v.room,
          v.numbers (λ y. 1),
          length-total s.in_ch.buffer,
          length-total answers,
          total-get_elem? (to_send (λ y. 1)) s.requests i g,
        ) in
        (record s { requests = set s.requests i answered; in_ch = c }, ground (arith, g, h, fits))
    send-Sends i x (returned none) g h = ground (arith, g, h)
    send-Sends i x (returned (some e)) g h = ground (arith, g, h)

  Reach-Inv : {answers : List (Evaluated R E)} {s : State R E} → Reach answers s → Inv answers s
  Reach-Inv {answers} (start e) = subst (Inv answers) (sym e) (new-Inv answers)
  Reach-Inv {answers} (later {s = s} r a h) = step-Inv answers s (Reach-Inv r) a h

  none_to_send :
      (w : Evaluated R E → ℕ) (ps : List (RequestPc R E))
      → total (to_send (λ y. 1)) ps ≡ 0
      → total (to_send w) ps ≡ 0
  none_to_send w [] e = refl
  none_to_send w (asking x ∷ ps) e = absurd (omega arith)
  none_to_send w (answered ∷ ps) e = omega (arith, none_to_send w ps (omega arith))

  -- In each state of a call of `barrier`: where it has returned without an error, its responses are the
  -- answers of all endpoints, each as often as it was given, in some order; an error that it returns is
  -- the answer of an endpoint; and a request that has still to send its answer can send it while the
  -- loop runs, and panics once `barrier` has returned.
  pub barrier_answers :
      {answers : List (Evaluated R E)} {s : State R E}
      → Reach answers s
      → (s.main ≡ returned none
          → (w : Evaluated R E → ℕ) → total (λ r. w (result r)) s.responses ≡ total w answers)
        × ((e : E)
            → s.main ≡ returned (some e)
            → (w : Evaluated R E → ℕ) → w (failed e) ≤ total w answers)
        × ((i : ℕ) (x : Evaluated R E)
            → get_elem? s.requests i ≡ some (asking x)
            → Sends s i s.main)
  barrier_answers {answers} {s} r =
      let v = Reach-Inv r in
      (
        λ f w.
            let held = subst (HasRounds (length answers) s) f v.rounds in
            let rest : (length s.in_ch.buffer ≡ 0) × (total (to_send (λ y. 1)) s.requests ≡ 0) =
              omega (
                arith,
                held.0,
                v.numbers (λ y. 1),
                length-total s.in_ch.buffer,
                length-total s.responses,
                length-total answers,
              ) in
            omega (
              arith,
              v.numbers w,
              ap (error_of w) f,
              no_weight w s.in_ch.buffer rest.0,
              none_to_send w s.requests rest.1,
            ),
        λ e f w. omega (arith, v.numbers w, ap (error_of w) f),
        λ i x g. send-Sends answers s v i x s.main g v.rounds,
      )
