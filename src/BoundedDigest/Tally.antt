-- ===== src/BoundedDigest/Tally.antt =====
-- Where the files are that the walk has visited, and what the map has.
use mathlib.Core.Path.{subst}
use awesome_patterns.Base.{
  ℕ, zero, suc, ◌+◌, ◌≡◌, ◌<◌, ◌≤◌, refl, sym, ap, ◌∙◌, Bool, false, List, [], ◌∷◌, Option, none,
  some, arith, ◌==◌, if◌then◌else◌, length, get_elem?, set, ℕ_discrete, total, total-set,
  total-replicate, same,
}
use awesome_patterns.BoundedDigest.{
  Error, Visit, failed, file, WalkPc, walking, offering, reporting, DigesterPc, receiving, holding,
  finished, gone, returned, State, Event, silent, collected, Outcome, moves, num_digesters, new,
}
use awesome_patterns.BoundedDigest.Stages.{has_left, is_here}

-- The error of a walk that has failed.
abbrev pub sent_error : Option Error → Error
sent_error none = none
sent_error (some e) = e

abbrev pub fault : WalkPc → Option Error → Error
fault (reporting e) o = e
fault _ o = sent_error o

abbrev pub remaining : WalkPc → List Visit
remaining (walking vs) = vs
remaining (offering p vs) = file p ∷ vs
remaining _ = []

-- How often the walk visits a file, and how often it is called with an error.
abbrev pub visits_of : ℕ → List Visit → ℕ
visits_of x [] = 0
visits_of x (file p ∷ vs) = same x p + visits_of x vs
visits_of x (_ ∷ vs) = visits_of x vs

abbrev pub failures : List Visit → ℕ
failures [] = 0
failures (failed e ∷ vs) = suc (failures vs)
failures (_ ∷ vs) = failures vs

abbrev pub holds : ℕ → DigesterPc → ℕ
holds x (holding p) = same x p
holds x _ = 0

abbrev pub collections : ℕ → List Event → ℕ
collections x [] = 0
collections x (collected p ∷ es) = same x p + collections x es
collections x (silent ∷ es) = collections x es

pub all_counted : (ds : List DigesterPc) → length ds ≤ total has_left ds + total is_here ds
all_counted [] = omega arith
all_counted (receiving ∷ ds) = omega (arith, all_counted ds)
all_counted (holding p ∷ ds) = omega (arith, all_counted ds)
all_counted (finished ∷ ds) = omega (arith, all_counted ds)
all_counted (gone ∷ ds) = omega (arith, all_counted ds)

pub gone_holds : (x : ℕ) (ds : List DigesterPc) → total is_here ds ≡ 0 → total (holds x) ds ≡ 0
gone_holds x [] h = refl
gone_holds x (gone ∷ ds) h = omega (arith, gone_holds x ds (omega arith))
gone_holds x (receiving ∷ ds) h = absurd (omega arith)
gone_holds x (holding p ∷ ds) h = absurd (omega arith)
gone_holds x (finished ∷ ds) h = absurd (omega arith)

module _ {S B : Type 0} (read_file : ℕ → B × Error) (md5_sum : B → S) where
  -- The entry of a file that is visited a number of times.
  abbrev pub entry : ℕ → ℕ → Option S
  entry x zero = none
  entry x (suc n) = some (md5_sum (read_file x).0)

  -- The walk met no error, the map has just the sums of the files that it visited, and each of them
  -- was read without an error.
  abbrev pub IsComplete : List Visit → (ℕ → Option S) → Type 0
  IsComplete visits sums =
      (failures visits ≡ 0)
      × ((x : ℕ)
          → (sums x ≡ entry x (visits_of x visits))
            × (0 < visits_of x visits → (read_file x).1 ≡ none))

  pub record Tally (visits : List Visit) (s : State S) (es : List Event) : Type 0 where
    pub counted :
        s.done_closed ≡ false
        → fault s.walk s.errc ≡ none
        → (x : ℕ)
        → visits_of x visits
          ≡ visits_of x (remaining s.walk) + total (holds x) s.digesters + collections x es
    pub unfailed :
        s.done_closed ≡ false
        → fault s.walk s.errc ≡ none
        → failures visits ≡ failures (remaining s.walk)
    pub filled : (x : ℕ) → s.sums x ≡ entry x (collections x es)
    pub read : (x : ℕ) → 0 < collections x es → (read_file x).1 ≡ none
    pub final : s.main ≡ returned none → IsComplete visits s.sums

  -- The state behind a step.
  abbrev pub After : List Visit → List Event → Outcome S → Type 0
  After visits es (moves s e) = Tally visits s (e ∷ es)
  After visits es _ = Unit

  pub returned-injective : {x y : Error} → returned x ≡ returned y → x ≡ y
  returned-injective h = cc

  pub filled_step :
      (p x : ℕ) (old : Option S) (n : ℕ)
      → old ≡ entry x n
      → (if p == x then some (md5_sum (read_file p).0) else old) ≡ entry x (same x p + n)
  filled_step p x old n f = elim (ℕ_discrete p x) [
    | yes q ↦
        let one : same x p + n ≡ suc n = ground arith in
        let hit : (if p == x then some (md5_sum (read_file p).0) else old)
            ≡ some (md5_sum (read_file p).0) =
          ground arith in
        hit ∙ ap (λ y. some (md5_sum (read_file y).0)) q ∙ ap (entry x) (sym one)
    | no q ↦
        let zero_more : same x p + n ≡ n = ground arith in
        let miss : (if p == x then some (md5_sum (read_file p).0) else old) ≡ old = ground arith in
        miss ∙ f ∙ ap (entry x) (sym zero_more)
  ]

  pub read_step :
      (p x n : ℕ)
      → (read_file p).1 ≡ none
      → (0 < n → (read_file x).1 ≡ none)
      → 0 < same x p + n
      → (read_file x).1 ≡ none
  read_step p x n r f h = elim (ℕ_discrete p x) [
    | yes q ↦ ap (λ y. (read_file y).1) (sym q) ∙ r
    | no q ↦ f (ground arith)
  ]

  module _ (visits : List Visit) (s : State S) (es : List Event) (t : Tally visits s es) where
    pub carry :
        (q : State S) (a : Event) {s' : State S} {e : Event}
        → moves q a ≡ moves s' e
        → Tally visits q (a ∷ es)
        → Tally visits s' (e ∷ es)
    carry q a {s'} {e} h u = subst (After visits es) {y = moves s' e} h u

    pub walk_moves :
        (w w' : WalkPc) (o : Option Error) (b : Bool)
        → s.walk ≡ w
        → (s.done_closed ≡ false → fault w' o ≡ none → fault w s.errc ≡ none)
        → ((x : ℕ)
            → s.done_closed ≡ false
            → fault w' o ≡ none
            → visits_of x (remaining w) ≡ visits_of x (remaining w'))
        → (s.done_closed ≡ false
            → fault w' o ≡ none
            → failures (remaining w) ≡ failures (remaining w'))
        → Tally visits (record s { walk = w'; errc = o; paths_closed = b }) (silent ∷ es)
    walk_moves w w' o b f a c d = record {
      counted = λ q k x. omega (
        arith,
        t.counted q (ap (λ u. fault u s.errc) f ∙ a q k) x,
        ap (λ u. visits_of x (remaining u)) f,
        c x q k,
      );
      unfailed = λ q k.
          t.unfailed q (ap (λ u. fault u s.errc) f ∙ a q k)
          ∙ ap (λ u. failures (remaining u)) f
          ∙ d q k;
      filled = t.filled;
      read = t.read;
      final = t.final;
    }

    -- A digester goes on with the file that it held, or none.
    pub digests-Tally :
        (j : ℕ) (d d' : DigesterPc)
        → get_elem? s.digesters j ≡ some d
        → ((x : ℕ) → s.done_closed ≡ false → holds x d ≡ holds x d')
        → Tally visits (record s { digesters = set s.digesters j d' }) (silent ∷ es)
    digests-Tally j d d' g a = record {
      counted =
          λ q k x. omega (arith, t.counted q k x, a x q, total-set (holds x) s.digesters j d' g);
      unfailed = t.unfailed;
      filled = t.filled;
      read = t.read;
      final = t.final;
    }

  pub new-Tally : (visits : List Visit) → Tally visits (new visits) []
  unfolding new
  new-Tally visits = record {
    counted = λ q k x. omega (arith, total-replicate (holds x) num_digesters receiving refl);
    unfailed = λ q k. refl;
    filled = λ x. refl;
    read = λ x h. absurd (omega arith);
    final = λ c. cc;
  }
