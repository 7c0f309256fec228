-- ===== src/Fetchers.antt =====
-- concurrency/subtasks/fetchers/fetchers.go: three fetchers, and `FetchResults`, whose goroutines are
-- those of `DivideAndConquer` with `Fetch` for `Evaluate`. A duration is a number of nanoseconds; how
-- one is printed is a parameter.
pub mod Results
mod Examples
use Prim.Native.String.{◌++◌}
use awesome_patterns.Base.{ℕ, String, ◌≡◌, List, [], ◌∷◌, Option, none, some, length, get_elem?}
use awesome_patterns.Gather.{Evaluated, result, failed}
use awesome_patterns.Gather.Network.{State, Outcome, Action, Reach}

-- The interface: `Fetch` for each URL, and `GetName`.
pub record Fetcher : Type 0 where
  pub fetch : String → Evaluated String String
  pub get_name : String

pub record GoogleFetcher : Type 0 where
  pub name : String

pub record BingFetcher : Type 0 where
  pub name : String

pub record DuckDuckGoFetcher : Type 0 where
  pub name : String

-- `fmt.Sprintf("%s is fetching %s", g.Name, url), nil`
pub google_fetch : GoogleFetcher → String → Evaluated String String
google_fetch g url = result (g.name ++ " is fetching " ++ url)

pub bing_fetch : BingFetcher → String → Evaluated String String
bing_fetch b url = result (b.name ++ " is fetching " ++ url)

pub duck_duck_go_fetch : DuckDuckGoFetcher → String → Evaluated String String
duck_duck_go_fetch d url = result (d.name ++ " is fetching " ++ url)

pub new_google_fetcher : String → Fetcher
unfolding google_fetch
new_google_fetcher name =
    let g : GoogleFetcher = record { name = name } in
    record { fetch = google_fetch g; get_name = g.name }

pub new_bing_fetcher : String → Fetcher
unfolding bing_fetch
new_bing_fetcher name =
    let b : BingFetcher = record { name = name } in
    record { fetch = bing_fetch b; get_name = b.name }

pub new_duck_duck_go_fetcher : String → Fetcher
unfolding duck_duck_go_fetch
new_duck_duck_go_fetcher name =
    let d : DuckDuckGoFetcher = record { name = name } in
    record { fetch = duck_duck_go_fetch d; get_name = d.name }

-- The fetchers of `RunFetchers`.
pub run_fetchers : List Fetcher
unfolding new_google_fetcher new_bing_fetcher new_duck_duck_go_fetcher
run_fetchers =
    new_google_fetcher "Google"
    ∷ new_bing_fetcher "Bing"
    ∷ new_duck_duck_go_fetcher "Duck Duck Go"
    ∷ []

module _ (show_duration : ℕ → String) (url : String) (timeout : ℕ) where
  -- `fmt.Errorf("%s timeout after %v on %v", f.GetName(), timeout, url)`
  pub timeout_error : Fetcher → String
  timeout_error f = f.get_name ++ " timeout after " ++ show_duration timeout ++ " on " ++ url

  -- What the goroutine of a fetcher gets; there is none past the list.
  pub fetch_at : Option Fetcher → Evaluated String String
  fetch_at (some f) = f.fetch url
  fetch_at none = failed ""

  pub timeout_at : Option Fetcher → String
  unfolding timeout_error
  timeout_at (some f) = timeout_error f
  timeout_at none = ""

  -- The states of `FetchResults(url, fetchers, timeout)`.
  abbrev pub Fetching : List Fetcher → State String String → Type 0
  Fetching fetchers =
      Reach (λ i. fetch_at (get_elem? fetchers i)) (λ i. timeout_at (get_elem? fetchers i))
        (length fetchers)
