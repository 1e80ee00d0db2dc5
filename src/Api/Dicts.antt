-- ===== src/Api/Dicts.antt =====
-- The laws of Python's dictionary operations on JSON objects.
use cnp_v1_starter_kit.Prelude.{
  Option-cases, true, false, none, some, String, str_eq, if◌then◌else◌, arith, ◌≡◌, refl, eq_iff,
  ◌⊎◌, inl, inr,
}
use cnp_v1_starter_kit.Api.Json.{Json, Fields, end, entry, get, has, put, pop, rename}

pub get-put :
    (k j : String) (v : Json) (d : Fields)
    → get j (put k v d) ≡ (if str_eq k j then some v else get j d)
unfolding get put
get-put k j v end = refl
get-put k j v (entry i w d) = ground (arith, eq_iff k j, eq_iff i k, eq_iff i j, get-put k j v d)

pub get-pop : (k j : String) (d : Fields) → get j (pop k d) ≡ (if str_eq k j then none else get j d)
unfolding get pop
get-pop k j end = ground arith
get-pop k j (entry i w d) = ground (arith, eq_iff k j, eq_iff i k, eq_iff i j, get-pop k j d)

-- A key is renamed, unless the new name is there.
pub get-rename :
    (old new k : String) (d : Fields)
    → get k (rename old new d) ≡ (
        if has new d
        then get k d
        else if str_eq new k
        then get old d
        else if str_eq old k
        then none
        else get k d)
unfolding rename
get-rename old new k d = elim (Option-cases (get new d)) [
  | inl free ↦ elim (Option-cases (get old d)) [
    | inl absent ↦ ground (arith, free, absent, eq_iff new k, eq_iff old k)
    | inr (v, there) ↦ ground (arith, free, there, get-put new k v (pop old d), get-pop old k d)
  ]
  | inr (v, taken) ↦ rw taken refl
]

-- Nothing is left to rename.
abbrev pub Settled : String → String → Fields → Type 0
Settled old new d = (has new d ≡ true) ⊎ (get old d ≡ none)

pub rename-Settled : (old new : String) (d : Fields) → Settled old new d → rename old new d ≡ d
unfolding rename
rename-Settled old new d (inl there) = rw there refl
rename-Settled old new d (inr absent) = ground (arith, absent)

pub Settled-rename :
    (old new : String) (d : Fields) → str_eq old new ≡ false → Settled old new (rename old new d)
Settled-rename old new d distinct = elim (Option-cases (get new d)) [
  | inl free ↦ inr (
      ground
        (arith, free, get-rename old new old d, eq_iff old old, eq_iff new old, eq_iff old new))
  | inr (v, taken) ↦ inl (ground (arith, taken, get-rename old new new d))
]

-- Renaming another key leaves it so.
pub Settled-rename_other :
    (old new a b : String) (d : Fields)
    → str_eq a new ≡ false
    → str_eq b new ≡ false
    → str_eq a old ≡ false
    → str_eq b old ≡ false
    → Settled old new d
    → Settled old new (rename a b d)
Settled-rename_other old new a b d h₁ h₂ h₃ h₄ (inl there) =
    inl (ground (arith, there, get-rename a b new d))
Settled-rename_other old new a b d h₁ h₂ h₃ h₄ (inr absent) =
    inr (ground (arith, absent, get-rename a b old d))
