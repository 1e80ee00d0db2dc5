-- ===== src/Tests/RateLimit.antt =====
-- gateway/app/core/rate_limit.py at concrete inputs.
use cnp_v1_starter_kit.Prelude.{
  ℕ, ◌*◌, ◌≤◌, ◌≡◌, refl, true, false, List, [], ◌∷◌, none, some, String, arith, not, ◌||◌, str_eq,
  find, insert,
}
use cnp_v1_starter_kit.RateLimit.Window.{
  SlidingWindow, new_window, bucket_of, trim, store, is_allowed, retry_after,
}
use cnp_v1_starter_kit.RateLimit.History.{within, ideal_run, admitted, run, granted}
use cnp_v1_starter_kit.RateLimit.Refinement.{Tracks, run-ideal_run, is_allowed-Tracks, new-Tracks}
use cnp_v1_starter_kit.RateLimit.Retry.{retry_after-is_allowed}
use cnp_v1_starter_kit.RateLimit.ClientIp.{IpAddress}
use cnp_v1_starter_kit.RateLimit.Middleware.{is_guarded, new_limiters, dispatch}
use cnp_v1_starter_kit.RateLimit.Dispatch.{is_next, all_pass, is_next-dispatch}
use cnp_v1_starter_kit.RateLimit.Throughput.{
  HttpRequest, served, global_calls, served-le-global_max,
}

abbrev calls : List (String × ℕ)
calls = ("a", 0) ∷ ("a", 4) ∷ ("b", 4) ∷ ("a", 5) ∷ ("a", 11) ∷ []

verdicts : run (new_window 2 10) calls ≡ true ∷ true ∷ true ∷ false ∷ true ∷ []
unfolding run new_window is_allowed trim bucket_of store find insert
verdicts = refl

run-ideal_run_example :
    (run (new_window 2 10) calls ≡ ideal_run 2 10 [] calls)
    × (granted (new_window 2 10) [] calls ≡ admitted 2 10 [] calls)
run-ideal_run_example = run-ideal_run 2 10 calls (omega arith)

-- A limiter that has admitted one call of its one, at time 3.
abbrev full : SlidingWindow
full = (is_allowed (new_window 1 10) "a" 3).0

full-Tracks : Tracks full (("a", 3) ∷ []) 3
unfolding is_allowed new_window trim bucket_of find store
full-Tracks = is_allowed-Tracks (new_window 1 10) [] 0 3 "a" (new-Tracks 1 10) (omega arith)

retry_after-is_allowed_example : (is_allowed (is_allowed full "a" 5).0 "a" 14).1 ≡ true
unfolding is_allowed new_window trim bucket_of find insert store retry_after
retry_after-is_allowed_example =
    retry_after-is_allowed 1 full (("a", 3) ∷ []) 3 5 5 14 "a" (omega arith) (omega arith)
      full-Tracks (omega arith) (omega arith) refl (omega arith)

-- Addresses as texts, with one network.
abbrev plain : IpAddress
plain = record {
  Address = String;
  ip_address = λ s. some s;
  ip_network = λ s. none;
  same_address = str_eq;
}

abbrev clock : ℕ → ℕ
clock n = 7

is_next-dispatch_example :
    is_next (dispatch 1 (new_limiters 1) "/api/node/hello" "6.6.6.6" clock).1 ≡ (
      not (is_guarded "/api/node/hello")
      || all_pass (new_limiters 1) "/api/node/hello" "6.6.6.6" clock)
is_next-dispatch_example = is_next-dispatch 1 (new_limiters 1) "/api/node/hello" "6.6.6.6" clock

abbrev hello_request : HttpRequest
hello_request = record { path = "/api/node/hello"; client = "6.6.6.6"; clock = clock }

served-le-global_max_example :
    within (60 * 1) 5 (served 1 (new_limiters 1) (hello_request ∷ hello_request ∷ [])) ≤ 2000
unfolding global_calls is_guarded
served-le-global_max_example =
    served-le-global_max 1 (hello_request ∷ hello_request ∷ []) (omega arith) 5
