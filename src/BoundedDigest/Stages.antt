-- ===== src/BoundedDigest/Stages.antt =====
-- What holds of the goroutines of `MD5All` in every reachable state, and how one of them keeps it.
use mathlib.Core.Path.{subst}
use awesome_patterns.Base.{
  ℕ, ◌≡◌, ◌≢◌, refl, sym, ap, ◌∙◌, Bool, true, false, List, [], ◌∷◌, none, some, arith, length,
  length-set, length-replicate, get_elem?, set, total, total-set, total-replicate, total-get_elem?,
}
use awesome_patterns.BoundedDigest.{
  Visit, WalkPc, closing, ended, DigesterPc, receiving, holding, finished, gone, MainPc, collecting,
  awaiting, returned, State, num_digesters, new, all_gone,
}

-- A digester behind its loop, and one that still counts.
abbrev pub has_left : DigesterPc → ℕ
has_left finished = 1
has_left gone = 1
has_left _ = 0

abbrev pub is_here : DigesterPc → ℕ
is_here gone = 0
is_here _ = 1

abbrev pub is_ended : WalkPc → Bool
is_ended ended = true
is_ended _ = false

-- The walk's result is sent.
abbrev pub is_past : WalkPc → Bool
is_past closing = true
is_past ended = true
is_past _ = false

-- What `MD5All` knows of the two channels where it stands.
abbrev pub Stage : MainPc → (done_closed c_closed : Bool) → Type 0
Stage collecting d c = d ≡ false
Stage awaiting d c = (d ≡ false) × (c ≡ true)
Stage (returned e) d c = d ≡ true

pub all_gone-total : (ds : List DigesterPc) → all_gone ds ≡ true → total is_here ds ≡ 0
unfolding all_gone
all_gone-total [] h = refl
all_gone-total (gone ∷ ds) h = omega (arith, all_gone-total ds h)
all_gone-total (receiving ∷ ds) h = cc
all_gone-total (holding p ∷ ds) h = cc
all_gone-total (finished ∷ ds) h = cc

pub closed-Stage : (m : MainPc) (d c : Bool) → Stage m d c → Stage m d true
closed-Stage collecting d c h = h
closed-Stage awaiting d c h = (h.0, refl)
closed-Stage (returned e) d c h = h

module _ {S : Type 0} where
  pub record Inv (s : State S) : Type 0 where
    pub size : length s.digesters ≡ num_digesters
    pub early : s.done_closed ≡ false → s.paths_closed ≡ false → total has_left s.digesters ≡ 0
    pub emptied : s.c_closed ≡ true → total is_here s.digesters ≡ 0
    pub paths : s.paths_closed ≡ is_ended s.walk
    pub stage : Stage s.main s.done_closed s.c_closed
    pub free : is_past s.walk ≡ false → s.errc ≡ none
    pub sent : is_past s.walk ≡ true → s.done_closed ≡ false → s.errc ≢ none

  pub new-Inv : (visits : List Visit) → Inv (new {S = S} visits)
  unfolding new
  new-Inv visits = record {
    size = length-replicate num_digesters receiving;
    early = λ d f. total-replicate has_left num_digesters receiving refl;
    emptied = λ c. cc;
    paths = refl;
    stage = refl;
    free = λ f. refl;
    sent = λ f. cc;
  }

  module _ (s : State S) (v : Inv s) where
    pub Stage-at : {m : MainPc} → s.main ≡ m → Stage m s.done_closed s.c_closed
    Stage-at f = subst (λ m. Stage m s.done_closed s.c_closed) f v.stage

    -- The walk goes on before its result is sent.
    pub walks :
        (w w' : WalkPc)
        → s.walk ≡ w
        → is_past w ≡ false
        → is_past w' ≡ false
        → is_ended w' ≡ false
        → is_ended w ≡ false
        → Inv (record s { walk = w' })
    walks w w' f a a' b b' = record {
      size = v.size;
      early = v.early;
      emptied = v.emptied;
      paths = v.paths ∙ ap is_ended f ∙ b' ∙ sym b;
      stage = v.stage;
      free = λ g. v.free (ap is_past f ∙ a);
      sent = λ g. cc;
    }

    -- A digester goes on, at a place in its loop or behind it when it may leave.
    pub digests :
        (j : ℕ) (d d' : DigesterPc)
        → get_elem? s.digesters j ≡ some d
        → (s.done_closed ≡ false → s.paths_closed ≡ false → has_left d' ≡ 0)
        → is_here d ≡ 1
        → Inv (record s { digesters = set s.digesters j d' })
    digests j d d' g a b = record {
      size = length-set s.digesters j d' ∙ v.size;
      early = λ c q. omega (arith, v.early c q, a c q, total-set has_left s.digesters j d' g);
      emptied =
          λ c. absurd (omega (arith, v.emptied c, b, total-get_elem? is_here s.digesters j g));
      paths = v.paths;
      stage = v.stage;
      free = v.free;
      sent = v.sent;
    }
