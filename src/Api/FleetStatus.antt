-- ===== src/Api/FleetStatus.antt =====
-- The route /fleet/status of gateway/app/api/admin.py. `zone_of` is the zone in a node's metadata,
-- SQLite's COALESCE(JSON_EXTRACT(metadata_json, '$.zone'), 'unassigned').
use cnp_v1_starter_kit.Prelude.{
  ℕ, ◌+◌, Bool, ◌&&◌, List, [], ◌∷◌, Option, some, String, str_eq, if◌then◌else◌, default, length,
  find, insert, upsert, pos, text_leb, order_by,
}
use cnp_v1_starter_kit.Store.Tables.{Node}
use cnp_v1_starter_kit.Api.Json.{Json, str, int, Fields, end, entry, get, put}

pub record Group : Type 0 where
  pub zone : String
  pub status : String
  pub count : ℕ

-- GROUP BY zone, status.
abbrev pub same_group : Group → Group → Bool
same_group a b = str_eq a.zone b.zone && str_eq a.status b.status

abbrev pub one_more : Group → Group → Group
one_more old new = record old { count = old.count + new.count }

-- ORDER BY zone, status.
unfoldable pub group_le : Group → Group → Bool
group_le a b = if str_eq a.zone b.zone then text_leb a.status b.status else text_leb a.zone b.zone

-- `zones[z]["total"]`, always a number.
abbrev pub number : Option Json → ℕ
number (some (int (pos n))) = n
number _ = 0

unfoldable pub total_of : Fields → ℕ
total_of z = number (get "total" z)

unfoldable pub new_zone : String → Fields
new_zone z = entry "zone" (str z) (entry "total" (int (pos 0)) end)

unfoldable pub count_status : Group → Fields → Fields
count_status row z =
    let z' = put row.status (int (pos row.count)) z in
    put "total" (int (pos (total_of z' + row.count))) z'

unfoldable pub add_row : Group → List (String × Fields) → List (String × Fields)
add_row row zones =
    insert row.zone (count_status row (default (new_zone row.zone) (find row.zone zones))) zones

unfoldable pub add_rows : List Group → List (String × Fields) → List (String × Fields)
add_rows [] zones = zones
add_rows (row ∷ rows) zones = add_rows rows (add_row row zones)

module _ (zone_of : Node → String) where
  unfoldable pub groups : List Node → List Group
  groups [] = []
  groups (n ∷ ns) =
      let rest = groups ns in
      let one : Group = record { zone = zone_of n; status = n.status; count = 1 } in
      if str_eq n.status "retired" then rest else upsert same_group one_more one rest

  -- The zones in the order of the rows, each under its name, and their number.
  unfoldable pub fleet_status : List Node → List (String × Fields) × ℕ
  fleet_status nodes =
      let zones = add_rows (order_by group_le (groups nodes)) [] in (zones, length zones)
