-- ===== src/Legacy/Held.antt =====
-- What holds of the registry and the status that a route of gateway.py ends with.
use cnp_v1_starter_kit.Prelude.{ℕ, Bool-cases, Option, none, some, String, ◌≡◌, refl, inl, inr}
use cnp_v1_starter_kit.Api.Json.{Json, null, Fields, truthy}
use cnp_v1_starter_kit.Legacy.Tables.{Registry}
use cnp_v1_starter_kit.Legacy.Requests.{
  Surroundings, Route, verify_token, verified, with_body, with_node_id, value_at, commit, coded,
}

abbrev pub Held {ℓ} : {A : Type ℓ} → (A → Type 0) → Option A → Type ℓ
Held P m = (a : _) → m ≡ some a → P a

-- What holds of the registry and the status that a route ends with, if it holds of the registry
-- before with any status.
module _ (P : Registry × ℕ → Type 0) (reg : Registry) (p : (n : ℕ) → P (reg, n)) where
  pub commit-Held :
      {A : Type 0} (m : Option (Registry × A))
      → Held (λ r. P (r.0, 200)) m
      → P (coded (commit m reg))
  unfolding commit
  commit-Held none h = p 500
  commit-Held (some r) h = h r refl

  pub verified-Held :
      {A : Type 0} (token : Option String) (route : Route A)
      → P (coded (route reg))
      → P (coded (verified token route reg))
  unfolding verified
  verified-Held token route h = elim (Bool-cases (verify_token token)) [
    | inl good ↦ rw good h
    | inr bad ↦ rw bad (p 401)
  ]

  pub body-Held :
      {A : Type 0} (body : Option Fields) (route : Fields → Route A)
      → ((fields : Fields) → P (coded (route fields reg)))
      → P (coded (with_body body route reg))
  unfolding with_body
  body-Held none route h = p 500
  body-Held (some fields) route h = h fields

  pub node_id-Held :
      {A : Type 0} (o : Surroundings) (body : Fields) (route : Json → Route A)
      → ((node_id : Json) → P (coded (route node_id reg)))
      → P (coded (with_node_id o body route reg))
  unfolding with_node_id
  node_id-Held o body route h =
      elim (Bool-cases (truthy o.is_zero_text (value_at "node_id" null body))) [
        | inl given ↦ rw given (h _)
        | inr missing ↦ rw missing (p 400)
      ]

  -- A route with a token, a body and a node_id, as a hello, a heartbeat and an event have them.
  pub named-Held :
      {A : Type 0} (o : Surroundings) (token : Option String) (body : Option Fields)
      (run : Fields → Json → Registry → Option (Registry × A))
      → ((fields : Fields) (node_id : Json) → Held (λ r. P (r.0, 200)) (run fields node_id reg))
      → P (
          coded (
            verified token
              (with_body body (λ fields.
                with_node_id o fields (λ node_id reg'. commit (run fields node_id reg') reg')))
              reg))
  named-Held o token body run h = verified-Held token _ (
      body-Held body _
        (λ fields. node_id-Held o fields _ (λ node_id. commit-Held _ (h fields node_id))))

  -- A route with a token and a body.
  pub reported-Held :
      {A : Type 0} (token : Option String) (body : Option Fields)
      (run : Fields → Registry → Option (Registry × A))
      → ((fields : Fields) → Held (λ r. P (r.0, 200)) (run fields reg))
      → P (
          coded
            (verified token (with_body body (λ fields reg'. commit (run fields reg') reg')) reg))
  reported-Held token body run h =
      verified-Held token _ (body-Held body _ (λ fields. commit-Held _ (h fields)))
