-- ===== src/Fetchers/Results.antt =====
-- What `FetchResults` returns.
use awesome_patterns.Base.{
  ℕ, String, suc, ◌+◌, ◌≡◌, ◌≤◌, ◌⊎◌, inl, inr, refl, ap, ◌∙◌, List, [], ◌∷◌, Option, some, arith,
  length, get_elem?, total,
}
use awesome_patterns.Gather.{Evaluated, result, failed}
use awesome_patterns.Gather.Network.{OuterPc, gone, Task, returned, State}
use awesome_patterns.Gather.Network.Invariant.{gone_result, gone_error}
use awesome_patterns.Gather.Network.Outcomes.{returned-IsGathered}
use awesome_patterns.Fetchers.{Fetcher, timeout_error, fetch_at, timeout_at, Fetching}

-- The text that is returned, weighed, and the error that is.
abbrev pub weigh_result : (String → ℕ) → Evaluated String String → ℕ
weigh_result w (result r) = w r
weigh_result w (failed e) = 0

abbrev pub weigh_error : (String → ℕ) → Evaluated String String → ℕ
weigh_error w (result r) = 0
weigh_error w (failed e) = w e

total-le :
    {A B : Type 0} (a : A → ℕ) (b : B → ℕ) (xs : List A) (ys : List B)
    → length xs ≡ length ys
    → ((i : ℕ) (x : A) (y : B) → get_elem? xs i ≡ some x → get_elem? ys i ≡ some y → a x ≤ b y)
    → total a xs ≤ total b ys
total-le a b [] ys e h = omega arith
total-le a b (x ∷ xs) [] e h = absurd (omega arith)
total-le a b (x ∷ xs) (y ∷ ys) e h =
    omega
      (arith, h 0 x y refl refl, total-le a b xs ys (omega arith) (λ i u v p q. h (suc i) u v p q))

gone_result-at :
    (w : String → ℕ) (v : Evaluated String String) → gone_result w (gone v) ≡ weigh_result w v
gone_result-at w (result r) = refl
gone_result-at w (failed e) = refl

gone_error-at :
    (w : String → ℕ) (v : Evaluated String String) → gone_error w (gone v) ≡ weigh_error w v
gone_error-at w (result r) = refl
gone_error-at w (failed e) = refl

module _ (show_duration : ℕ → String) (url : String) (timeout : ℕ) (fetchers : List Fetcher) where
  -- Each fetcher is gathered as what it fetched or as its timeout: as many results and errors as
  -- fetchers, each result at most as often as it is fetched, and each error at most as often as it is
  -- one of a fetch or of a timeout.
  pub record IsFetched (s : State String String) : Type 0 where
    pub number : length s.out + length s.errs ≡ length fetchers
    pub outcome :
        (i : ℕ) (f : Fetcher) (t : Task String String)
        → get_elem? fetchers i ≡ some f
        → get_elem? s.tasks i ≡ some t
        → (t.outer ≡ gone (f.fetch url))
          ⊎ (t.outer ≡ gone (failed (timeout_error show_duration url timeout f)))
    pub results :
        (w : String → ℕ) → total w s.out ≤ total (λ f. weigh_result w (f.fetch url)) fetchers
    pub errors :
        (w : String → ℕ)
        → total w s.errs
          ≤ total
              (λ f. weigh_error w (f.fetch url) + w (timeout_error show_duration url timeout f))
              fetchers

  fetched :
      (f : Fetcher) (o : Option Fetcher) (v : Evaluated String String) (c : OuterPc String String)
      → o ≡ some f
      → c ≡ gone v
      → (v ≡ fetch_at show_duration url timeout o)
        ⊎ (v ≡ failed (timeout_at show_duration url timeout o))
      → (c ≡ gone (f.fetch url)) ⊎ (c ≡ gone (failed (timeout_error show_duration url timeout f)))
  unfolding fetch_at timeout_at
  fetched f o v c e g (inl h) = inl (g ∙ ap gone (h ∙ ap (fetch_at show_duration url timeout) e))
  fetched f o v c e g (inr h) =
      inr (g ∙ ap gone (h ∙ ap (λ p. failed (timeout_at show_duration url timeout p)) e))

  result-le :
      (w : String → ℕ) (f : Fetcher) (c : OuterPc String String)
      → (c ≡ gone (f.fetch url)) ⊎ (c ≡ gone (failed (timeout_error show_duration url timeout f)))
      → gone_result w c ≤ weigh_result w (f.fetch url)
  result-le w f c (inl h) = omega (arith, ap (gone_result w) h, gone_result-at w (f.fetch url))
  result-le w f c (inr h) = omega (arith, ap (gone_result w) h)

  error-le :
      (w : String → ℕ) (f : Fetcher) (c : OuterPc String String)
      → (c ≡ gone (f.fetch url)) ⊎ (c ≡ gone (failed (timeout_error show_duration url timeout f)))
      → gone_error w c ≤ weigh_error w (f.fetch url) + w (timeout_error show_duration url timeout f)
  error-le w f c (inl h) = omega (arith, ap (gone_error w) h, gone_error-at w (f.fetch url))
  error-le w f c (inr h) = omega (arith, ap (gone_error w) h)

  -- When `FetchResults` has returned, it has gathered what each fetcher fetched or its timeout.
  pub returned-IsFetched :
      {s : State String String}
      → Fetching show_duration url timeout fetchers s
      → s.main ≡ returned
      → IsFetched s
  returned-IsFetched {s} r e =
      let g = returned-IsGathered _ _ r e in
      let each : (i : ℕ) (f : Fetcher) (t : Task String String)
          → get_elem? fetchers i ≡ some f
          → get_elem? s.tasks i ≡ some t
          → (t.outer ≡ gone (f.fetch url))
            ⊎ (t.outer ≡ gone (failed (timeout_error show_duration url timeout f))) =
        λ i f t p q.
          let (v, h, o) = g.outcome i t q in fetched f (get_elem? fetchers i) v t.outer p h o in
      record {
        number = g.number;
        outcome = each;
        results = λ w. omega (
          arith,
          g.results w,
          total-le (λ t. gone_result w t.outer) (λ f. weigh_result w (f.fetch url)) s.tasks fetchers
              g.tasks (λ i t f q p. result-le w f t.outer (each i f t p q)),
        );
        errors = λ w. omega (
          arith,
          g.errors w,
          total-le (λ t. gone_error w t.outer)
              (λ f. weigh_error w (f.fetch url) + w (timeout_error show_duration url timeout f))
              s.tasks fetchers g.tasks (λ i t f q p. error-le w f t.outer (each i f t p q)),
        );
      }
