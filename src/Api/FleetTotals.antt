-- ===== src/Api/FleetTotals.antt =====
-- The totals of the route /fleet/status, gateway/app/api/admin.py.
use cnp_v1_starter_kit.Prelude.{
  ℕ, ◌+◌, Bool, Bool-cases, true, false, not, List, [], ◌∷◌, some, String, str_eq, if◌then◌else◌,
  default, find, insert, upsert, pos, count, all, order_by, insert_in_order, arith, ◌≡◌, refl, ◌∙◌,
  ap, inl, inr, all-order_by,
}
use cnp_v1_starter_kit.Store.Tables.{Node}
use cnp_v1_starter_kit.Api.Json.{int, Fields, get, put}
use cnp_v1_starter_kit.Api.Dicts.{get-put}
use cnp_v1_starter_kit.Api.FleetStatus.{
  Group, same_group, one_more, group_le, total_of, new_zone, count_status, add_row, add_rows,
  groups, fleet_status,
}

abbrev pub is_active : Node → Bool
is_active n = not (str_eq n.status "retired")

abbrev pub counted : List Group → ℕ
counted [] = 0
counted (g ∷ gs) = g.count + counted gs

abbrev pub totals : List (String × Fields) → ℕ
totals [] = 0
totals ((z, e) ∷ zones) = total_of e + totals zones

-- The status is not the key that holds the total.
abbrev pub is_plain : Group → Bool
is_plain g = not (str_eq g.status "total")

counted-upsert :
    (g : Group) (gs : List Group) → counted (upsert same_group one_more g gs) ≡ g.count + counted gs
counted-upsert g [] = refl
counted-upsert g (x ∷ gs) = elim (Bool-cases (same_group x g)) [
  | inl same ↦ rw same (omega arith)
  | inr other ↦ rw other (omega (arith, counted-upsert g gs))
]

plain-upsert :
    (g : Group) (gs : List Group)
    → is_plain g ≡ true
    → all is_plain gs ≡ true
    → all is_plain (upsert same_group one_more g gs) ≡ true
plain-upsert g [] h k = ground (arith, h)
plain-upsert g (x ∷ gs) h k = elim (Bool-cases (same_group x g)) [
  | inl same ↦ rw same k
  | inr other ↦ rw other (ground (arith, k, plain-upsert g gs h))
]

counted-insert :
    (g : Group) (gs : List Group) → counted (insert_in_order group_le g gs) ≡ g.count + counted gs
unfolding insert_in_order
counted-insert g [] = refl
counted-insert g (x ∷ gs) = elim (Bool-cases (group_le g x)) [
  | inl first ↦ rw first refl
  | inr later ↦ rw later (omega (arith, counted-insert g gs))
]

counted-order_by : (gs : List Group) → counted (order_by group_le gs) ≡ counted gs
unfolding order_by
counted-order_by [] = refl
counted-order_by (g ∷ gs) =
    omega (arith, counted-insert g (order_by group_le gs), counted-order_by gs)

module _ (zone_of : Node → String) where
  counted-groups : (nodes : List Node) → counted (groups zone_of nodes) ≡ count is_active nodes
  unfolding groups
  counted-groups [] = refl
  counted-groups (n ∷ ns) = elim (Bool-cases (str_eq n.status "retired")) [
    | inl retired ↦ rw retired (omega (arith, counted-groups ns))
    | inr active ↦
        rw active (omega (arith, counted-upsert _ (groups zone_of ns), counted-groups ns))
  ]

  plain-groups :
      (nodes : List Node)
      → all (λ n. not (str_eq n.status "total")) nodes ≡ true
      → all is_plain (groups zone_of nodes) ≡ true
  unfolding groups
  plain-groups [] h = refl
  plain-groups (n ∷ ns) h = elim (Bool-cases (str_eq n.status "retired")) [
    | inl retired ↦ rw retired (plain-groups ns (ground (arith, h)))
    | inr active ↦ rw active (
        plain-upsert _ (groups zone_of ns) (ground (arith, h))
          (plain-groups ns (ground (arith, h))))
  ]

total-count_status :
    (row : Group) (z : Fields)
    → is_plain row ≡ true
    → total_of (count_status row z) ≡ total_of z + row.count
unfolding total_of count_status
total-count_status row z h =
    let plain : str_eq row.status "total" ≡ false = ground (arith, h) in
    let kept : get "total" (put row.status (int (pos row.count)) z) ≡ get "total" z =
      get-put row.status "total" (int (pos row.count)) z
      ∙ ap (λ b. if b then some (int (pos row.count)) else get "total" z) plain in
    rw (get-put "total" "total" _ (put row.status (int (pos row.count)) z), kept) refl

totals-insert :
    (z name : String) (e : Fields) (zones : List (String × Fields))
    → totals (insert z e zones) + total_of (default (new_zone name) (find z zones))
      ≡ totals zones + total_of e
unfolding insert find total_of new_zone get
totals-insert z name e [] = omega arith
totals-insert z name e ((y, d) ∷ zones) = elim (Bool-cases (str_eq y z)) [
  | inl same ↦ rw same (omega arith)
  | inr other ↦ rw other (omega (arith, totals-insert z name e zones))
]

totals-add_rows :
    (rows : List Group) (zones : List (String × Fields))
    → all is_plain rows ≡ true
    → totals (add_rows rows zones) ≡ totals zones + counted rows
unfolding add_rows add_row
totals-add_rows [] zones h = omega arith
totals-add_rows (row ∷ rows) zones h =
    let plain : is_plain row ≡ true = ground (arith, h) in
    let later : all is_plain rows ≡ true = ground (arith, h) in
    let old = default (new_zone row.zone) (find row.zone zones) in
    omega (
      arith,
      totals-add_rows rows (add_row row zones) later,
      totals-insert row.zone row.zone (count_status row old) zones,
      total-count_status row old plain,
    )

-- The totals of the zones are together the number of the nodes that are not retired, if no node calls
-- its status "total", the key under which a zone keeps its total.
pub totals-fleet_status :
    (zone_of : Node → String) (nodes : List Node)
    → all (λ n. not (str_eq n.status "total")) nodes ≡ true
    → totals (fleet_status zone_of nodes).0 ≡ count is_active nodes
unfolding fleet_status
totals-fleet_status zone_of nodes h =
    let rows = order_by group_le (groups zone_of nodes) in
    let plain : all is_plain rows ≡ true =
      all-order_by group_le is_plain (groups zone_of nodes) ∙ plain-groups zone_of nodes h in
    omega (
      arith,
      totals-add_rows rows [] plain,
      counted-order_by (groups zone_of nodes),
      counted-groups zone_of nodes,
    )
