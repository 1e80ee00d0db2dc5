-- ===== src/Tests.antt =====
-- The theorems at concrete inputs, and runs of the definitions.
mod RateLimit
mod Mqtt
mod Store
mod Ops
mod Operator
mod Bridge
mod Auth
mod Api
mod Catalog
mod Migrate
mod Overview
mod Legacy
mod Healing
mod Wire
mod Scores
