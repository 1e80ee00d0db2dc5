-- ===== src/RateLimit/Throughput.antt =====
-- The middleware over a sequence of requests: what reaches the handlers in a minute.
use cnp_v1_starter_kit.Prelude.{
  ℕ, ◌+◌, ◌*◌, ◌≤◌, Bool-cases, true, false, ◌&&◌, if◌then◌else◌, List, [], ◌∷◌, String, arith, ◌≡◌,
  refl, inl, inr,
}
use cnp_v1_starter_kit.RateLimit.Window.{SlidingWindow, new_window, is_allowed}
use cnp_v1_starter_kit.RateLimit.History.{within, times, granted, Monotone}
use cnp_v1_starter_kit.RateLimit.Refinement.{within-granted-le}
use cnp_v1_starter_kit.RateLimit.Middleware.{Limiters, is_guarded, new_limiters, dispatch}
use cnp_v1_starter_kit.RateLimit.Dispatch.{allowed, is_next, is_next-dispatch, global_after}

pub record HttpRequest : Type 0 where
  pub path : String
  pub client : String
  pub clock : ℕ → ℕ

-- The times at which the guarded requests come that reach a handler.
unfoldable pub served : ℕ → Limiters → List HttpRequest → List ℕ
served second ls [] = []
served second ls (r ∷ rs) =
    let (ls', answer) = dispatch second ls r.path r.client r.clock in
    let rest = served second ls' rs in
    if is_guarded r.path && is_next answer then r.clock 0 ∷ rest else rest

-- What they ask of the limiter of the gateway.
unfoldable pub global_calls : List HttpRequest → List (String × ℕ)
global_calls [] = []
global_calls (r ∷ rs) =
    let rest = global_calls rs in
    if is_guarded r.path then ("__global__", r.clock 0) ∷ rest else rest

free-keeps :
    (second : ℕ) (ls : Limiters) (path ip : String) (clock : ℕ → ℕ)
    → is_guarded path ≡ false
    → (dispatch second ls path ip clock).0 ≡ ls
unfolding dispatch
free-keeps second ls path ip clock free = rw free

passes_global :
    (second : ℕ) (ls : Limiters) (r : HttpRequest)
    → is_guarded r.path ≡ true
    → is_next (dispatch second ls r.path r.client r.clock).1 ≡ true
    → allowed ls.global_limiter "__global__" (r.clock 0) ≡ true
passes_global second ls r guarded passes =
    ground (arith, is_next-dispatch second ls r.path r.client r.clock)

-- One guarded request adds at most what it adds to the history of the limiter of the gateway.
count_one :
    (second window start : ℕ) (ls : Limiters) (r : HttpRequest) (g : SlidingWindow)
    (h : List (String × ℕ)) (rest : List ℕ) (final : List (String × ℕ))
    → ls.global_limiter ≡ g
    → is_guarded r.path ≡ true
    → within window start rest
        + within window start (
            times "__global__"
              (if allowed g "__global__" (r.clock 0) then ("__global__", r.clock 0) ∷ h else h))
      ≤ within window start (times "__global__" final)
    → within window start (
          if true && is_next (dispatch second ls r.path r.client r.clock).1
          then r.clock 0 ∷ rest
          else rest)
        + within window start (times "__global__" h)
      ≤ within window start (times "__global__" final)
unfolding times
count_one second window start ls r g h rest final e guarded ih =
    ground (arith, passes_global second ls r guarded)

module _ (second window start : ℕ) where
  abbrev seen : List ℕ → ℕ
  seen = within window start

  served-le :
      (rs : List HttpRequest) (ls : Limiters) (g : SlidingWindow) (h : List (String × ℕ))
      → ls.global_limiter ≡ g
      → seen (served second ls rs) + seen (times "__global__" h)
        ≤ seen (times "__global__" (granted g h (global_calls rs)))
  unfolding served global_calls granted
  served-le [] ls g h e = omega arith
  served-le (r ∷ rs) ls g h e = elim (Bool-cases (is_guarded r.path)) [
    | inl guarded ↦
        let ok = allowed g "__global__" (r.clock 0) in
        let h' : List (String × ℕ) = if ok then ("__global__", r.clock 0) ∷ h else h in
        let ih =
          served-le rs (dispatch second ls r.path r.client r.clock).0
            (is_allowed g "__global__" (r.clock 0)).0 h'
            (rw (← e) (global_after second ls r.path r.client r.clock guarded)) in
        rw (guarded) (
          count_one second window start ls r g h
            (served second (dispatch second ls r.path r.client r.clock).0 rs)
            (granted (is_allowed g "__global__" (r.clock 0)).0 h' (global_calls rs)) e guarded ih)
    | inr free ↦
        rw (free, free-keeps second ls r.path r.client r.clock free) (served-le rs ls g h e)
  ]

-- In any interval of sixty seconds at most 2000 requests under the guarded paths reach a handler,
-- whoever sends them, if the clock does not go back between requests.
pub served-le-global_max :
    (second : ℕ) (rs : List HttpRequest)
    → Monotone 0 (global_calls rs)
    → (start : ℕ) → within (60 * second) start (served second (new_limiters second) rs) ≤ 2000
unfolding new_limiters
served-le-global_max second rs m start = omega (
  arith,
  served-le second (60 * second) start rs (new_limiters second) (new_window 2000 (60 * second)) []
      refl,
  within-granted-le 2000 (60 * second) (global_calls rs) m "__global__" start,
)
