-- ===== src/RateLimit/Dispatch.antt =====
-- Which requests the middleware of gateway/app/core/rate_limit.py lets through.
use cnp_v1_starter_kit.Prelude.{
  ℕ, Bool, Bool-cases, true, false, not, ◌&&◌, ◌||◌, Option, none, some, String, is_blank, arith,
  ◌≡◌, refl, inl, inr,
}
use cnp_v1_starter_kit.RateLimit.Window.{SlidingWindow, is_allowed}
use cnp_v1_starter_kit.RateLimit.Middleware.{
  Limiters, Response, next, too_many, extract_node_id_from_path, is_guarded, is_hello, go_on, check,
  check_bootstrap, check_node, check_ip, dispatch,
}

abbrev pub allowed : SlidingWindow → String → ℕ → Bool
allowed w key now = (is_allowed w key now).1

abbrev pub node_passes : Option String → SlidingWindow → (ℕ → ℕ) → Bool
node_passes none w clock = true
node_passes (some node_id) w clock = is_blank node_id || allowed w node_id (clock 2)

abbrev pub bootstrap_passes : Limiters → String → (ℕ → ℕ) → Bool
bootstrap_passes ls path clock =
    not (is_hello path) || allowed ls.bootstrap_limiter "bootstrap" (clock 3)

abbrev pub all_pass : Limiters → String → String → (ℕ → ℕ) → Bool
all_pass ls path ip clock =
    allowed ls.global_limiter "__global__" (clock 0)
    && (allowed ls.ip_limiter ip (clock 1)
        && (node_passes (extract_node_id_from_path path) ls.node_limiter clock
            && bootstrap_passes ls path clock))

abbrev pub is_next : Response → Bool
is_next next = true
is_next (too_many detail wait) = false

and-true : (b : Bool) → (b && true) ≡ b
and-true b = ground arith

module _ (second : ℕ) where
  go_on-check :
      (detail key : String) (w : SlidingWindow) (now asked : ℕ) (ls : Limiters)
      (rest : Limiters → Limiters × Response)
      → is_next (go_on (check second detail w key now asked).1 ls rest).1
        ≡ (allowed w key now && is_next (rest ls).1)
  unfolding go_on check
  go_on-check detail key w now asked ls rest = ground arith

  bootstrap_verdict :
      (path : String) (clock : ℕ → ℕ) (ls : Limiters)
      → is_next (check_bootstrap second path clock ls).1 ≡ bootstrap_passes ls path clock
  unfolding check_bootstrap
  bootstrap_verdict path clock ls = elim (Bool-cases (is_hello path)) [
    | inl hello ↦
        rw (hello, go_on-check) (and-true (allowed ls.bootstrap_limiter "bootstrap" (clock 3)))
    | inr other ↦ rw other
  ]

  node_verdict :
      (node : Option String) (path : String) (clock : ℕ → ℕ) (ls : Limiters)
      → is_next (check_node second node path clock ls).1
        ≡ (node_passes node ls.node_limiter clock && bootstrap_passes ls path clock)
  unfolding check_node
  node_verdict none path clock ls = bootstrap_verdict path clock ls
  node_verdict (some node_id) path clock ls = elim (Bool-cases (is_blank node_id)) [
    | inl blank ↦ rw blank (bootstrap_verdict path clock ls)
    | inr named ↦ rw (named, go_on-check, bootstrap_verdict)
  ]

  -- A request under a guarded path is handed on exactly if the limiters of the gateway, of the
  -- address, of the node that the path names, if any, and of registrations, if it is one, all have
  -- room when it comes; under any other path it is handed on always.
  pub is_next-dispatch :
      (ls : Limiters) (path ip : String) (clock : ℕ → ℕ)
      → is_next (dispatch second ls path ip clock).1
        ≡ (not (is_guarded path) || all_pass ls path ip clock)
  unfolding dispatch check_ip
  is_next-dispatch ls path ip clock = elim (Bool-cases (is_guarded path)) [
    | inl guarded ↦ rw (guarded, go_on-check, go_on-check, node_verdict)
    | inr free ↦ rw free
  ]

  -- The later checks leave the limiter of the gateway alone.
  Keeps : (Limiters → Limiters × Response) → Type 0
  Keeps rest = (ls : Limiters) → (rest ls).0.global_limiter ≡ ls.global_limiter

  go_on-Keeps :
      (r : Option Response) (ls : Limiters) (rest : Limiters → Limiters × Response)
      → Keeps rest
      → (go_on r ls rest).0.global_limiter ≡ ls.global_limiter
  unfolding go_on Keeps
  go_on-Keeps none ls rest k = k ls
  go_on-Keeps (some r) ls rest k = refl

  check_bootstrap-Keeps :
      (path : String) (clock : ℕ → ℕ) → Keeps (check_bootstrap second path clock)
  unfolding check_bootstrap Keeps
  check_bootstrap-Keeps path clock ls = elim (Bool-cases (is_hello path)) [
    | inl hello ↦ rw hello (go_on-Keeps _ _ _ (λ ls'. refl))
    | inr other ↦ rw other
  ]

  check_node-Keeps :
      (node : Option String) (path : String) (clock : ℕ → ℕ)
      → Keeps (check_node second node path clock)
  unfolding check_node Keeps
  check_node-Keeps none path clock ls = check_bootstrap-Keeps path clock ls
  check_node-Keeps (some node_id) path clock ls = elim (Bool-cases (is_blank node_id)) [
    | inl blank ↦ rw blank (check_bootstrap-Keeps path clock ls)
    | inr named ↦ rw named (go_on-Keeps _ _ _ (check_bootstrap-Keeps path clock))
  ]

  pub global_after :
      (ls : Limiters) (path ip : String) (clock : ℕ → ℕ)
      → is_guarded path ≡ true
      → (dispatch second ls path ip clock).0.global_limiter
        ≡ (is_allowed ls.global_limiter "__global__" (clock 0)).0
  unfolding dispatch check_ip check Keeps
  global_after ls path ip clock guarded =
      rw guarded (go_on-Keeps _ _ _ (λ ls'. go_on-Keeps _ _ _ (check_node-Keeps _ path clock)))
