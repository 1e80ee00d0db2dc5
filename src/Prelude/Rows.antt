-- ===== src/Prelude/Rows.antt =====
-- Tables as lists of rows: the SQL statements that the program runs on them.
use mathlib.Core.Path.{◌≡◌}
use mathlib.Core.Logic.{inl, inr}
use mathlib.Core.Bool.{Bool, true}
use mathlib.Core.List.{List, [], ◌∷◌, ◌++◌}
use mathlib.Core.Option.{Option, none, some}
use native.Mathlib.Omega.{arith}
use cnp_v1_starter_kit.Prelude.Tests.{if◌then◌else◌, Bool-cases}
use cnp_v1_starter_kit.Prelude.Lists.{any}

module _ {ℓ} {A : Type ℓ} where
  -- UPDATE … SET f WHERE p.
  abbrev pub update_where : (A → Bool) → (A → A) → List A → List A
  update_where p f [] = []
  update_where p f (x ∷ xs) = (if p x then f x else x) ∷ update_where p f xs

  -- INSERT … ON CONFLICT DO UPDATE: `same` compares keys, and `merge old new` is the row that stays.
  abbrev pub upsert : (A → A → Bool) → (A → A → A) → A → List A → List A
  upsert same merge r [] = r ∷ []
  upsert same merge r (x ∷ xs) = if same x r then merge x r ∷ xs else x ∷ upsert same merge r xs

  -- INSERT OR IGNORE.
  abbrev pub insert_or_ignore : (A → A → Bool) → A → List A → List A
  insert_or_ignore same r xs = if any (λ x. same x r) xs then xs else xs ++ r ∷ []

  -- The first row that passes, as `fetchone` gives it.
  abbrev pub fetch_one : (A → Bool) → List A → Option A
  fetch_one p [] = none
  fetch_one p (x ∷ xs) = if p x then some x else fetch_one p xs

module _ {ℓ} {A : Type ℓ} (same : A → A → Bool) where
  pub any-append : (p : A → Bool) (xs : List A) (r : A) → p r ≡ true → any p (xs ++ r ∷ []) ≡ true
  any-append p [] r h = ground arith
  any-append p (x ∷ xs) r h = ground (arith, any-append p xs r h)

  -- To insert a row again changes nothing.
  pub insert_or_ignore_idem :
      (r : A) (xs : List A)
      → same r r ≡ true
      → insert_or_ignore same r (insert_or_ignore same r xs) ≡ insert_or_ignore same r xs
  insert_or_ignore_idem r xs h = elim (Bool-cases (any (λ x. same x r) xs)) [
    | inl there ↦ rw (there, there)
    | inr new ↦ rw (new, any-append (λ x. same x r) xs r h)
  ]

-- The row that a query finds, after an UPDATE that leaves the query's answer on every row.
pub fetch-update_where {ℓ} :
    {A : Type ℓ} (p q : A → Bool) (f : A → A) (xs : List A) (x : A)
    → ((y : A) → p (f y) ≡ p y)
    → fetch_one p xs ≡ some x
    → fetch_one p (update_where q f xs) ≡ some (if q x then f x else x)
fetch-update_where p q f [] x k h = ground (arith, h)
fetch-update_where p q f (y ∷ xs) x k h = ground (arith, h, k y, fetch-update_where p q f xs x k)

fetch-more {ℓ} :
    {A : Type ℓ} (p : A → Bool) (r : A) (xs : List A) (x : A)
    → fetch_one p xs ≡ some x
    → fetch_one p (xs ++ r ∷ []) ≡ some x
fetch-more p r [] x h = ground (arith, h)
fetch-more p r (y ∷ xs) x h = ground (arith, h, fetch-more p r xs x)

pub fetch-insert {ℓ} :
    {A : Type ℓ} (p : A → Bool) (same : A → A → Bool) (r : A) (xs : List A) (x : A)
    → fetch_one p xs ≡ some x
    → fetch_one p (insert_or_ignore same r xs) ≡ some x
fetch-insert p same r xs x h = elim (Bool-cases (any (λ y. same y r) xs)) [
  | inl there ↦ rw there h
  | inr new ↦ rw new (fetch-more p r xs x h)
]
