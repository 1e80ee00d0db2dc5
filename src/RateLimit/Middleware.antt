-- ===== src/RateLimit/Middleware.antt =====
-- `RateLimitMiddleware.dispatch` of gateway/app/core/rate_limit.py. `call_next` is the answer
-- `next`; `clock n` is the n-th reading of the clock while a request is handled.
use text.Mathlib.Text.{starts_with}
use cnp_v1_starter_kit.Prelude.{
  ℕ, ◌*◌, ◌==◌, Bool, not, ◌||◌, if◌then◌else◌, List, ◌∷◌, Option, none, some, String, str_eq,
  split, strip, is_blank, ends_with,
}
use cnp_v1_starter_kit.RateLimit.Window.{SlidingWindow, new_window, is_allowed, retry_after}

-- `parts[2] == "commands"` and `parts[3]`.
abbrev pub command_node : List String → Option String
command_node (a ∷ b ∷ c ∷ d ∷ rest) = if str_eq c "commands" then some d else none
command_node _ = none

unfoldable pub extract_node_id_from_path : String → Option String
extract_node_id_from_path path = command_node (split b'/' (strip (λ c. c == b'/') path))

pub record Limiters : Type 0 where
  pub node_limiter : SlidingWindow
  pub ip_limiter : SlidingWindow
  pub global_limiter : SlidingWindow
  pub bootstrap_limiter : SlidingWindow

pub data Response : Type 0 where
  next : Response
  too_many : String → ℕ → Response

unfoldable pub is_guarded : String → Bool
is_guarded path = starts_with path "/api/node/" || starts_with path "/v1/compat/node/"

unfoldable pub is_hello : String → Bool
is_hello path = ends_with path "/hello" || ends_with path "/node/hello"

-- The rest of the checks, unless one refused.
unfoldable pub go_on :
    Option Response → Limiters → (Limiters → Limiters × Response) → Limiters × Response
go_on none ls rest = rest ls
go_on (some r) ls rest = (ls, r)

module _ (second : ℕ) where
  unfoldable pub new_limiters : Limiters
  new_limiters = record {
    node_limiter = new_window 60 (60 * second);
    ip_limiter = new_window 200 (60 * second);
    global_limiter = new_window 2000 (60 * second);
    bootstrap_limiter = new_window 30 (60 * second);
  }

  -- A limiter that was asked, and the answer if it refused.
  unfoldable pub check : String → SlidingWindow → String → ℕ → ℕ → SlidingWindow × Option Response
  check detail w key now asked =
      let (w', ok, _) = is_allowed w key now in
      (w', if ok then none else some (too_many detail (retry_after second w' key asked)))

  -- The last check: registrations.
  unfoldable pub check_bootstrap : String → (ℕ → ℕ) → Limiters → Limiters × Response
  check_bootstrap path clock ls =
      if not (is_hello path)
      then (ls, next)
      else let detail : String = "Registration rate limit exceeded" in
        let (w, refusal) = check detail ls.bootstrap_limiter "bootstrap" (clock 3) (clock 4) in
        go_on refusal (record ls { bootstrap_limiter = w }) (λ ls'. (ls', next))

  -- The third: the node that a command path names.
  unfoldable pub check_node : Option String → String → (ℕ → ℕ) → Limiters → Limiters × Response
  check_node none path clock ls = check_bootstrap path clock ls
  check_node (some node_id) path clock ls =
      if is_blank node_id
      then check_bootstrap path clock ls
      else let detail : String = "Node rate limit exceeded" in
        let (w, refusal) = check detail ls.node_limiter node_id (clock 2) (clock 3) in
        go_on refusal (record ls { node_limiter = w }) (check_bootstrap path clock)

  unfoldable pub check_ip : String → String → (ℕ → ℕ) → Limiters → Limiters × Response
  check_ip path ip clock ls =
      let detail : String = "Source IP rate limit exceeded" in
      let (w, refusal) = check detail ls.ip_limiter ip (clock 1) (clock 2) in
      go_on refusal (record ls { ip_limiter = w })
        (check_node (extract_node_id_from_path path) path clock)

  unfoldable pub dispatch : Limiters → String → String → (ℕ → ℕ) → Limiters × Response
  dispatch ls path ip clock =
      if not (is_guarded path)
      then (ls, next)
      else let detail : String = "Global rate limit exceeded" in
        let (w, refusal) = check detail ls.global_limiter "__global__" (clock 0) (clock 1) in
        go_on refusal (record ls { global_limiter = w }) (check_ip path ip clock)

  -- The verdict on a node id of a request body, and the time to wait.
  unfoldable pub check_node_rate : Limiters → String → (ℕ → ℕ) → Limiters × Bool × ℕ
  check_node_rate ls node_id clock =
      let (w, ok, _) = is_allowed ls.node_limiter node_id (clock 0) in
      (record ls { node_limiter = w }, ok, if ok then 0 else retry_after second w node_id (clock 1))
