-- ===== src/Api/Renames.antt =====
-- The deprecated names of protocol version 1 in an envelope.
use cnp_v1_starter_kit.Api.Json.{Fields, rename}

-- The envelope as a node of version 2 would send it.
abbrev pub canonical : Fields → Fields
canonical d = rename "timestamp" "ts_utc" (rename "protocol" "protocol_version" d)
