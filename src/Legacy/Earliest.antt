-- ===== src/Legacy/Earliest.antt =====
-- The command that a poll of gateway.py finds.
use cnp_v1_starter_kit.Prelude.{
  Bool, Bool-cases, Option-cases, true, List, [], ◌∷◌, Option, none, some, all, select, leb, arith,
  ◌≡◌, refl, subst, inl, inr,
}
use cnp_v1_starter_kit.Legacy.Tables.{CommandRow}
use cnp_v1_starter_kit.Legacy.Commands.{earlier, earliest}

abbrev pub Passes {ℓ} : {A : Type ℓ} → (A → Bool) → Option A → Type 0
Passes p none = Unit
Passes p (some a) = p a ≡ true

module _ (p : CommandRow → Bool) where
  pub all-select :
      (q : CommandRow → Bool) (cs : List CommandRow) → all p cs ≡ true → all p (select q cs) ≡ true
  all-select q [] h = refl
  all-select q (c ∷ cs) h = ground (arith, h, all-select q cs)

  -- It passes every test that all commands pass.
  pub earliest-Passes : (cs : List CommandRow) → all p cs ≡ true → Passes p (earliest cs)
  unfolding earliest earlier
  earliest-Passes [] h = tt
  earliest-Passes (c ∷ cs) h = elim (Option-cases (earliest cs)) [
    | inl alone ↦ rw alone (ground (arith, h))
    | inr (d, there) ↦ rw there (elim (Bool-cases (leb c.issued_at d.issued_at)) [
      | inl first ↦ rw first (ground (arith, h))
      | inr later ↦ rw later (
          let tail : all p cs ≡ true = ground (arith, h) in
          let kept : p d ≡ true = subst (Passes p) there (earliest-Passes cs tail) in kept)
    ])
  ]
