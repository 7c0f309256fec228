-- ===== src/Fetchers/Examples.antt =====
-- The first fetcher of `RunFetchers`, and one that times out.
use awesome_patterns.Base.{ℕ, String, refl, List, [], ◌∷◌}
use awesome_patterns.Channel.{make, try_send, try_receive}
use awesome_patterns.Gather.{result, failed, send}
use awesome_patterns.Gather.Network.{
  stored, evaluating, gone, returned, State, evaluate_task, select_result, time_out, deliver,
  gather_result, gather_error, end_gather, fresh_task, new, store, on_evaluate, on_select,
  on_timeout, on_deliver, on_gather, on_gather_error, on_return, of_task, step, start, later,
}
use awesome_patterns.Fetchers.{
  Fetcher, google_fetch, new_google_fetcher, new_bing_fetcher, fetch_at, timeout_error, timeout_at,
  Fetching,
}
use awesome_patterns.Fetchers.Results.{IsFetched, returned-IsFetched}

abbrev show_duration : ℕ → String
show_duration n = "2s"

abbrev fetchers : List Fetcher
unfolding new_google_fetcher new_bing_fetcher
fetchers = new_google_fetcher "Google" ∷ new_bing_fetcher "Bing" ∷ []

abbrev google_text : String
google_text = "Google is fetching http://www.abc.com"

abbrev bing_error : String
bing_error = "Bing timeout after 2s on http://www.abc.com"

abbrev final : State String String
final = record {
  tasks =
      record { inner = stored; ch = make 1; ech = make 1; outer = gone (result google_text) }
      ∷ record { inner = evaluating; ch = make 1; ech = make 1; outer = gone (failed bing_error) }
      ∷ [];
  channels = record { gather = make 2; errors = make 2 };
  main = returned;
  out = google_text ∷ [];
  errs = bing_error ∷ [];
}

final-Reach : Fetching show_duration "http://www.abc.com" 2000000000 fetchers final
unfolding step new fresh_task store on_evaluate on_select on_timeout on_deliver on_gather
    on_gather_error on_return of_task send try_send try_receive fetch_at timeout_at timeout_error
    google_fetch new_google_fetcher new_bing_fetcher
final-Reach =
    later
      (later
        (later
          (later
            (later
              (later (later (later (start refl) (evaluate_task 0) refl) (select_result 0) refl)
                (time_out 1) refl)
              (deliver 1) refl)
            (deliver 0) refl)
          gather_error refl)
        gather_result refl)
      end_gather refl

returned-IsFetched_example : IsFetched show_duration "http://www.abc.com" 2000000000 fetchers final
returned-IsFetched_example =
    returned-IsFetched show_duration "http://www.abc.com" 2000000000 fetchers final-Reach refl
