-- ===== src/Api/Resending.antt =====
-- Events of version 1 that a node sends again, in gateway/app/api/compat.py.
use cnp_v1_starter_kit.Prelude.{Bool, true, false, Option, none, some, ◌≡◌, refl, List}
use cnp_v1_starter_kit.Store.Tables.{Event, Store}
use cnp_v1_starter_kit.Api.Json.{Fields}
use cnp_v1_starter_kit.Api.Gateway.{Gateway, Outside, with_token}
use cnp_v1_starter_kit.Api.Translate.{Numbers}
use cnp_v1_starter_kit.Api.CompatRoutes.{with_raw, record_compat_event}

-- Whatever the second call is, all it can do is insert.
later :
    (o : Outside) (n : Numbers) (v : Option Bool) (t : Option Fields) (g : Gateway)
    (rows : List Event)
    → g.store.events ≡ rows
    → ((r : Fields) → t ≡ some r → (record_compat_event o n r g).0.store.events ≡ rows)
    → (with_token v (with_raw o n t (record_compat_event o n)) g).0.store.events ≡ rows
later o n (some true) (some r) g rows e h = h r refl
later o n (some true) none g rows e h = e
later o n (some false) t g rows e h = e
later o n none t g rows e h = e
