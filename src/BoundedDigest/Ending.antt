-- ===== src/BoundedDigest/Ending.antt =====
-- `MD5All` returns, and leaves no goroutine behind.
use mathlib.Core.Path.{subst}
use awesome_patterns.Base.{
  ℕ, zero, suc, ◌≡◌, ◌<◌, ◌≤◌, ◌⊎◌, inl, inr, refl, sym, ap, ◌∙◌, Bool, true, false, List, [], ◌∷◌,
  ◌++◌, append_assoc, Option, none, some, arith, ◌==◌, if◌then◌else◌, get_elem?, get_elem?-lt, set,
  total, total-get_elem?, total-pos,
}
use awesome_patterns.BoundedDigest.{
  Error, Visit, failed, other, file, WalkPc, walking, offering, reporting, closing, ended,
  DigesterPc, receiving, holding, finished, gone, MainPc, collecting, awaiting, returned, Result,
  State, Event, silent, collected, moves, on_visit, on_take, on_walk_cancel, on_walk_end, on_finish,
  on_cancel, on_count, all_gone, on_close, on_main, on_result, digest, on_deliver, Action, visit,
  take, cancel_walk, end_walk, finish, deliver, cancel, count_down, close_results, continue_main,
  step, Reach, later,
}
use awesome_patterns.BoundedDigest.Stages.{has_left, is_here, is_ended, is_past, Stage, Inv}
use awesome_patterns.BoundedDigest.Invariant.{Reach-Inv}
use awesome_patterns.BoundedDigest.Progress.{work_left, step-lt}

total-all_gone : (ds : List DigesterPc) → total is_here ds ≡ 0 → all_gone ds ≡ true
unfolding all_gone
total-all_gone [] h = refl
total-all_gone (gone ∷ ds) h = total-all_gone ds (omega arith)
total-all_gone (receiving ∷ ds) h = absurd (omega arith)
total-all_gone (holding p ∷ ds) h = absurd (omega arith)
total-all_gone (finished ∷ ds) h = absurd (omega arith)

-- The call has returned, and the goroutines that it started have ended.
pub record IsOver {S : Type 0} (s : State S) : Type 0 where
  pub error : Error
  pub main_over : s.main ≡ returned error
  pub walk_over : s.walk ≡ ended
  pub digesters_over : all_gone s.digesters ≡ true
  pub closer_over : s.c_closed ≡ true

module _ {S B : Type 0} (read_file : ℕ → B × Error) (md5_sum : B → S) where
  abbrev Enabled : State S → Type 0
  Enabled s =
      (a : Action) × (s' : State S) × (e : Event) × (step read_file md5_sum s a ≡ moves s' e)

  module _ (s : State S) (v : Inv s) where
    Stage-now : {m : MainPc} → s.main ≡ m → Stage m s.done_closed s.c_closed
    Stage-now f = subst (λ m. Stage m s.done_closed s.c_closed) f v.stage

    collected_or_not :
        (q : State S) (r : Result S) (x : Error)
        → (s' : State S) × (e : Event) × (on_result q r x ≡ moves s' e)
    unfolding on_result
    collected_or_not q r none = (
      record q { sums = λ x. if r.path == x then some r.sum else q.sums x },
      collected r.path,
      refl,
    )
    collected_or_not q r (some x) =
        (record q { main = returned (some x); done_closed = true }, silent, refl)

    -- A digester that holds a result can deliver it or go.
    holder_acts :
        (j p : ℕ) (m : MainPc) → get_elem? s.digesters j ≡ some (holding p) → s.main ≡ m → Enabled s
    unfolding step on_deliver on_cancel
    holder_acts j p collecting g f =
        let q = record s { digesters = set s.digesters j receiving } in
        let (s', e, h) =
          collected_or_not q (digest read_file md5_sum p) (digest read_file md5_sum p).err in
        let still_open : s.c_closed ≡ false =
          ground (arith, v.emptied, total-get_elem? is_here s.digesters j g) in
        (deliver j, s', e, ground (arith, f, g, h, still_open))
    holder_acts j p awaiting g f =
        absurd (omega (arith, v.emptied (Stage-now f).1, total-get_elem? is_here s.digesters j g))
    holder_acts j p (returned x) g f = (
      cancel j,
      record s { digesters = set s.digesters j finished },
      silent,
      ground (arith, g, Stage-now f),
    )

    -- While the walk offers a path, the first digester is at its receive or holds a result.
    offer_acts :
        (p : ℕ) (vs : List Visit) (b : Bool) (o : Option DigesterPc)
        → s.walk ≡ offering p vs
        → s.done_closed ≡ b
        → get_elem? s.digesters 0 ≡ o
        → Enabled s
    unfolding step on_take on_walk_cancel
    offer_acts p vs true o f d g = (
      cancel_walk,
      record s { walk = reporting (some "walk canceled") },
      silent,
      ground (arith, f, d),
    )
    offer_acts p vs false (some receiving) f d g = (
      take 0,
      record s { walk = walking vs; digesters = set s.digesters 0 (holding p) },
      silent,
      ground (arith, f, g),
    )
    offer_acts p vs false (some (holding q)) f d g = holder_acts 0 q s.main g refl
    offer_acts p vs false (some finished) f d g = absurd (
        omega
          (arith, v.early d (v.paths ∙ ap is_ended f), total-get_elem? has_left s.digesters 0 g))
    offer_acts p vs false (some gone) f d g = absurd (
        omega
          (arith, v.early d (v.paths ∙ ap is_ended f), total-get_elem? has_left s.digesters 0 g))
    offer_acts p vs false none f d g = absurd (get_elem?-lt s.digesters 0 (omega (arith, v.size)) g)

    -- Once the paths are closed, each digester that is here goes on.
    digester_acts :
        (j : ℕ) (d : DigesterPc)
        → get_elem? s.digesters j ≡ some d
        → 0 < is_here d
        → s.walk ≡ ended
        → Enabled s
    unfolding step on_finish on_count
    digester_acts j receiving g h f =
        let c = v.paths ∙ ap is_ended f in
        (
          finish j,
          record s { digesters = set s.digesters j finished },
          silent,
          ground (arith, g, c),
        )
    digester_acts j (holding p) g h f = holder_acts j p s.main g refl
    digester_acts j finished g h f =
        (count_down j, record s { digesters = set s.digesters j gone }, silent, ap (on_count s j) g)
    digester_acts j gone g h f = absurd (omega arith)

    main_acts :
        (m : MainPc) (o : Option Error)
        → s.main ≡ m
        → s.errc ≡ o
        → s.walk ≡ ended
        → total is_here s.digesters ≡ 0
        → s.c_closed ≡ true
        → IsOver s ⊎ Enabled s
    unfolding step on_main
    main_acts collecting o f g w t c =
        inr (continue_main, record s { main = awaiting }, silent, ground (arith, f, c))
    main_acts awaiting (some x) f g w t c = inr (
      continue_main,
      record s { errc = none; main = returned x; done_closed = true },
      silent,
      ground (arith, f, g),
    )
    main_acts awaiting none f g w t c = absurd (v.sent (ap is_past w) (Stage-now f).0 g)
    main_acts (returned x) o f g w t c = inl (record {
      error = x;
      main_over = f;
      walk_over = w;
      digesters_over = total-all_gone s.digesters t;
      closer_over = c;
    })

    closer_acts :
        (n : ℕ) (c : Bool)
        → total is_here s.digesters ≡ n
        → s.c_closed ≡ c
        → s.walk ≡ ended
        → IsOver s ⊎ Enabled s
    unfolding step on_close
    closer_acts (suc n) c t f w =
        let (j, d, g, h) = total-pos is_here s.digesters (omega arith) in
        inr (digester_acts j d g h w)
    closer_acts zero false t f w =
        let all = total-all_gone s.digesters t in
        inr (close_results, record s { c_closed = true }, silent, ground (arith, f, all))
    closer_acts zero true t f w = main_acts s.main s.errc refl refl w t f

    never_stuck : (w : WalkPc) → s.walk ≡ w → IsOver s ⊎ Enabled s
    unfolding step on_visit on_walk_end
    never_stuck (walking []) f =
        inr (visit, record s { walk = reporting none }, silent, ap (on_visit s) f)
    never_stuck (walking (failed x ∷ vs)) f =
        inr (visit, record s { walk = reporting (some x) }, silent, ap (on_visit s) f)
    never_stuck (walking (other ∷ vs)) f =
        inr (visit, record s { walk = walking vs }, silent, ap (on_visit s) f)
    never_stuck (walking (file p ∷ vs)) f =
        inr (visit, record s { walk = offering p vs }, silent, ap (on_visit s) f)
    never_stuck (offering p vs) f =
        inr (offer_acts p vs s.done_closed (get_elem? s.digesters 0) f refl refl)
    never_stuck (reporting x) f =
        let free = v.free (ap is_past f) in
        inr (end_walk, record s { walk = closing; errc = some x }, silent, ground (arith, f, free))
    never_stuck closing f =
        let c = v.paths ∙ ap is_ended f in
        inr (end_walk, record s { walk = ended; paths_closed = true }, silent, ground (arith, f, c))
    never_stuck ended f = closer_acts (total is_here s.digesters) s.c_closed refl refl f

  -- A run that goes on until the call is over.
  abbrev pub Ends : List Visit → List Event → Type 0
  Ends visits es =
      (s' : State S) × (new_events : List Event) × Reach read_file md5_sum visits s'
        (new_events ++ es)
      × IsOver s'

  goes_on :
      (k : ℕ) {visits : List Visit} {s : State S} {es : List Event}
      → Reach read_file md5_sum visits s es
      → work_left s ≤ k
      → IsOver s ⊎ Enabled s
      → Ends visits es
  goes_on k {s = s} r b (inl o) = (s, [], r, o)
  goes_on zero {s = s} r b (inr (a, s', e, h)) =
      absurd (omega (arith, step-lt s read_file md5_sum a h))
  goes_on (suc k) {visits} {s} {es} r b (inr (a, s', e, h)) =
      let r' = later r a h in
      let (q, more, r'', o) =
        goes_on k r' (omega (arith, step-lt s read_file md5_sum a h))
          (never_stuck s' (Reach-Inv r') s'.walk refl) in
      (
        q,
        more ++ e ∷ [],
        subst (Reach read_file md5_sum visits q) (sym (append_assoc more (e ∷ []) es)) r'',
        o,
      )

  -- From every state of a call of `MD5All`, also behind an error of the walk or of a file and behind
  -- its return, there is a step to make until the call has returned and all goroutines that it
  -- started have ended; and every step makes the work left less, so that no order of the steps goes
  -- on for ever and none of the goroutines leaks.
  pub call-Ends :
      {visits : List Visit} {s : State S} {es : List Event}
      → Reach read_file md5_sum visits s es
      → Ends visits es
        × ((a : Action) (s' : State S) (e : Event)
            → step read_file md5_sum s a ≡ moves s' e
            → work_left s' < work_left s)
  call-Ends {s = s} r = (
    goes_on (work_left s) r (omega arith) (never_stuck s (Reach-Inv r) s.walk refl),
    λ a s' e h. step-lt s read_file md5_sum a h,
  )
