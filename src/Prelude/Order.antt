-- ===== src/Prelude/Order.antt =====
-- The order of texts by code points, and sorting.
use Prim.Native.Char.{code}
use Prim.Native.String.{String}
use mathlib.Core.Bool.{Bool, true, false, ◌&&◌, ◌||◌}
use mathlib.Core.Path.{◌≡◌, refl}
use mathlib.Core.Logic.{inl, inr}
use mathlib.Core.List.{List, [], ◌∷◌}
use native.Mathlib.Omega.{arith}
use cnp_v1_starter_kit.Prelude.Tests.{ltb, ◌==◌, if◌then◌else◌, Bool-cases}
use cnp_v1_starter_kit.Prelude.Lists.{any, all}

unfoldable pub text_leb : String → String → Bool
text_leb String.[] t = true
text_leb (String.◌∷◌ c s) String.[] = false
text_leb (String.◌∷◌ c s) (String.◌∷◌ d t) =
    let rest = text_leb s t in if code c == code d then rest else ltb (code c) (code d)

pub text_leb_total : (s t : String) → text_leb s t || text_leb t s ≡ true
unfolding text_leb
text_leb_total String.[] t = refl
text_leb_total (String.◌∷◌ c s) String.[] = refl
text_leb_total (String.◌∷◌ c s) (String.◌∷◌ d t) = ground (arith, text_leb_total s t)

pub text_leb_trans :
    (s t u : String) → text_leb s t ≡ true → text_leb t u ≡ true → text_leb s u ≡ true
unfolding text_leb
text_leb_trans String.[] t u h k = refl
text_leb_trans (String.◌∷◌ c s) (String.◌∷◌ d t) (String.◌∷◌ e u) h k =
    ground (arith, text_leb_trans s t u)
text_leb_trans (String.◌∷◌ c s) (String.◌∷◌ d t) String.[] h k = ground (arith, h, k)
text_leb_trans (String.◌∷◌ c s) String.[] u h k = ground (arith, h, k)

module _ {ℓ} {A : Type ℓ} (le : A → A → Bool) where
  unfoldable pub insert_in_order : A → List A → List A
  insert_in_order a [] = a ∷ []
  insert_in_order a (x ∷ xs) =
      let later = insert_in_order a xs in if le a x then a ∷ x ∷ xs else x ∷ later

  -- ORDER BY.
  unfoldable pub order_by : List A → List A
  order_by [] = []
  order_by (x ∷ xs) = insert_in_order x (order_by xs)

  -- Each element is before all that follow.
  abbrev pub IsOrdered : List A → Type 0
  IsOrdered [] = Unit
  IsOrdered (x ∷ xs) = (all (λ y. le x y) xs ≡ true) × IsOrdered xs

  pub any-insert_in_order :
      (p : A → Bool) (a : A) (xs : List A) → any p (insert_in_order a xs) ≡ p a || any p xs
  unfolding insert_in_order
  any-insert_in_order p a [] = refl
  any-insert_in_order p a (x ∷ xs) = ground (arith, any-insert_in_order p a xs)

  pub any-order_by : (p : A → Bool) (xs : List A) → any p (order_by xs) ≡ any p xs
  unfolding order_by
  any-order_by p [] = refl
  any-order_by p (x ∷ xs) = ground (arith, any-insert_in_order p x (order_by xs), any-order_by p xs)

  pub all-insert_in_order :
      (p : A → Bool) (a : A) (xs : List A) → all p (insert_in_order a xs) ≡ p a && all p xs
  unfolding insert_in_order
  all-insert_in_order p a [] = refl
  all-insert_in_order p a (x ∷ xs) = ground (arith, all-insert_in_order p a xs)

  pub all-order_by : (p : A → Bool) (xs : List A) → all p (order_by xs) ≡ all p xs
  unfolding order_by
  all-order_by p [] = refl
  all-order_by p (x ∷ xs) = ground (arith, all-insert_in_order p x (order_by xs), all-order_by p xs)

  module _ (total : (a b : A) → le a b || le b a ≡ true)
      (transitive : (a b c : A) → le a b ≡ true → le b c ≡ true → le a c ≡ true) where
    all_later :
        (a x : A) (xs : List A)
        → le a x ≡ true
        → all (λ y. le x y) xs ≡ true
        → all (λ y. le a y) xs ≡ true
    all_later a x [] h k = refl
    all_later a x (y ∷ xs) h k = ground (arith, transitive a x y h, all_later a x xs h)

    insert-IsOrdered : (a : A) (xs : List A) → IsOrdered xs → IsOrdered (insert_in_order a xs)
    unfolding insert_in_order
    insert-IsOrdered a [] o = (refl, tt)
    insert-IsOrdered a (x ∷ xs) o = elim (Bool-cases (le a x)) [
      | inl first ↦ rw first (ground (arith, first, all_later a x xs first o.0), o)
      | inr later ↦ rw later (
        ground (arith, later, total a x, all-insert_in_order (λ y. le x y) a xs, o.0),
        insert-IsOrdered a xs o.1,
      )
    ]

    pub order_by-IsOrdered : (xs : List A) → IsOrdered (order_by xs)
    unfolding order_by
    order_by-IsOrdered [] = tt
    order_by-IsOrdered (x ∷ xs) = insert-IsOrdered x (order_by xs) (order_by-IsOrdered xs)
