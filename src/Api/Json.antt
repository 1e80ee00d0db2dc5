-- ===== src/Api/Json.antt =====
-- JSON values as `json.loads` gives them, and Python's operations on their objects. A number that is
-- no integer is its text.
use cnp_v1_starter_kit.Prelude.{
  ℤ, is_zero, Bool, true, false, not, Option, none, some, String, str_eq, is_blank, if◌then◌else◌,
  is_some,
}

mutual
  pub data Json : Type 0 where
    null : Json
    boolean : Bool → Json
    int : ℤ → Json
    float : String → Json
    str : String → Json
    arr : Items → Json
    obj : Fields → Json

  pub data Items : Type 0 where
    nil : Items
    cons : Json → Items → Items

  pub data Fields : Type 0 where
    end : Fields
    entry : String → Json → Fields → Fields

-- `d.get(k)`.
unfoldable pub get : String → Fields → Option Json
get k end = none
get k (entry j v fs) = if str_eq j k then some v else get k fs

-- `k in d`.
abbrev pub has : String → Fields → Bool
has k fs = is_some (get k fs)

-- `d[k] = v`: in place, or at the end.
unfoldable pub put : String → Json → Fields → Fields
put k v end = entry k v end
put k v (entry j w fs) = if str_eq j k then entry k v fs else entry j w (put k v fs)

-- `d.pop(k, None)`: the rest.
unfoldable pub pop : String → Fields → Fields
pop k end = end
pop k (entry j v fs) = if str_eq j k then pop k fs else entry j v (pop k fs)

-- `d.setdefault(k, v)`.
unfoldable pub set_default : String → Json → Fields → Fields
set_default k v fs = if has k fs then fs else put k v fs

abbrev move_to : String → String → Option Json → Fields → Fields
move_to old new none fs = fs
move_to old new (some v) fs = put new v (pop old fs)

-- `if old in d and new not in d: d[new] = d.pop(old)`.
unfoldable pub rename : String → String → Fields → Fields
rename old new fs = if has new fs then fs else move_to old new (get old fs) fs

-- `is_zero_text` tells the texts of the floats that are zero.
abbrev pub truthy : (String → Bool) → Json → Bool
truthy is_zero_text null = false
truthy is_zero_text (boolean b) = b
truthy is_zero_text (int i) = not (is_zero i)
truthy is_zero_text (float t) = not (is_zero_text t)
truthy is_zero_text (str s) = not (is_blank s)
truthy is_zero_text (arr nil) = false
truthy is_zero_text (obj end) = false
truthy is_zero_text _ = true
