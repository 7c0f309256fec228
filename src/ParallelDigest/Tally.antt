-- ===== src/ParallelDigest/Tally.antt =====
-- Where the files are that the walk has visited, and what the map has.
use mathlib.Core.Path.{subst}
use awesome_patterns.Base.{
  ℕ, ◌+◌, ◌≡◌, ◌<◌, refl, ap, ◌∙◌, false, List, [], ◌∷◌, ◌++◌, Option, none, some, arith, get_elem?,
  set, total, total-set, total-snoc, same,
}
use awesome_patterns.BoundedDigest.{Error, Visit, file}
use awesome_patterns.ParallelDigest.{
  WalkPc, walking, checking, walked, reporting, SummerPc, holding, finished, gone, CloserPc,
  returned, State, Event, silent, collected, Outcome, moves, new,
}
use awesome_patterns.BoundedDigest.Tally.{sent_error, visits_of, failures, entry, IsComplete}
use awesome_patterns.ParallelDigest.Invariant.{is_here}

-- The error of a walk that has failed.
abbrev pub fault : WalkPc → Option Error → Error
fault (walked e) o = e
fault (reporting e) o = e
fault _ o = sent_error o

abbrev pub remaining : WalkPc → List Visit
remaining (walking vs) = vs
remaining (checking vs) = vs
remaining _ = []

abbrev pub holds : ℕ → SummerPc → ℕ
holds x (holding p) = same x p
holds x _ = 0

abbrev pub collections : ℕ → List Event → ℕ
collections x [] = 0
collections x (collected p ∷ es) = same x p + collections x es
collections x (silent ∷ es) = collections x es

pub gone_holds : (x : ℕ) (ds : List SummerPc) → total is_here ds ≡ 0 → total (holds x) ds ≡ 0
gone_holds x [] h = refl
gone_holds x (gone ∷ ds) h = omega (arith, gone_holds x ds (omega arith))
gone_holds x (holding p ∷ ds) h = absurd (omega arith)
gone_holds x (finished ∷ ds) h = absurd (omega arith)

pub returned-injective : {x y : Error} → returned x ≡ returned y → x ≡ y
returned-injective h = cc

module _ {S B : Type 0} (read_file : ℕ → B × Error) (md5_sum : B → S) (visits : List Visit) where
  pub record Tally (s : State S) (es : List Event) : Type 0 where
    pub counted :
        s.done_closed ≡ false
        → fault s.walk s.errc ≡ none
        → (x : ℕ)
        → visits_of x visits
          ≡ visits_of x (remaining s.walk) + total (holds x) s.summers + collections x es
    pub unfailed :
        s.done_closed ≡ false
        → fault s.walk s.errc ≡ none
        → failures visits ≡ failures (remaining s.walk)
    pub filled : (x : ℕ) → s.sums x ≡ entry read_file md5_sum x (collections x es)
    pub read : (x : ℕ) → 0 < collections x es → (read_file x).1 ≡ none
    pub final : s.main ≡ returned none → IsComplete read_file md5_sum visits s.sums

  -- The state behind a step.
  abbrev pub After : List Event → Outcome S → Type 0
  After es (moves s e) = Tally s (e ∷ es)
  After es _ = Unit

  pub new-Tally : Tally (new visits) []
  unfolding new
  new-Tally = record {
    counted = λ q k x. omega arith;
    unfailed = λ q k. refl;
    filled = λ x. refl;
    read = λ x h. absurd (omega arith);
    final = λ c. cc;
  }

  module _ (s : State S) (es : List Event) (t : Tally s es) where
    pub carry :
        (q : State S) (a : Event) {s' : State S} {e : Event}
        → moves q a ≡ moves s' e
        → Tally q (a ∷ es)
        → Tally s' (e ∷ es)
    carry q a {s'} {e} h u = subst (After es) {y = moves s' e} h u

    -- The walk goes on without a file.
    pub walk_moves :
        (w w' : WalkPc) (o : Option Error) (c : CloserPc)
        → s.walk ≡ w
        → (s.done_closed ≡ false → fault w' o ≡ none → fault w s.errc ≡ none)
        → ((x : ℕ) → fault w' o ≡ none → visits_of x (remaining w) ≡ visits_of x (remaining w'))
        → (fault w' o ≡ none → failures (remaining w) ≡ failures (remaining w'))
        → Tally (record s { walk = w'; errc = o; closer = c }) (silent ∷ es)
    walk_moves w w' o c f a b d = record {
      counted = λ q k x. omega (
        arith,
        t.counted q (ap (λ u. fault u s.errc) f ∙ a q k) x,
        ap (λ u. visits_of x (remaining u)) f,
        b x k,
      );
      unfailed = λ q k.
          t.unfailed q (ap (λ u. fault u s.errc) f ∙ a q k)
          ∙ ap (λ u. failures (remaining u)) f
          ∙ d k;
      filled = t.filled;
      read = t.read;
      final = t.final;
    }

    -- The walk starts the goroutine of a file.
    pub walk_starts :
        (p : ℕ) (vs : List Visit)
        → s.walk ≡ walking (file p ∷ vs)
        → Tally
            (record s { walk = checking vs; summers = s.summers ++ holding p ∷ [] })
            (silent ∷ es)
    walk_starts p vs f = record {
      counted = λ q k x. omega (
        arith,
        t.counted q (ap (λ u. fault u s.errc) f ∙ k) x,
        ap (λ u. visits_of x (remaining u)) f,
        total-snoc (holds x) s.summers (holding p),
      );
      unfailed =
          λ q k. t.unfailed q (ap (λ u. fault u s.errc) f ∙ k) ∙ ap (λ u. failures (remaining u)) f;
      filled = t.filled;
      read = t.read;
      final = t.final;
    }

    -- The goroutine of a file goes on with the file that it held, or none.
    pub sums-Tally :
        (j : ℕ) (d d' : SummerPc)
        → get_elem? s.summers j ≡ some d
        → ((x : ℕ) → s.done_closed ≡ false → holds x d ≡ holds x d')
        → Tally (record s { summers = set s.summers j d' }) (silent ∷ es)
    sums-Tally j d d' g a = record {
      counted =
          λ q k x. omega (arith, t.counted q k x, a x q, total-set (holds x) s.summers j d' g);
      unfailed = t.unfailed;
      filled = t.filled;
      read = t.read;
      final = t.final;
    }
