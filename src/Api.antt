-- ===== src/Api.antt =====
-- The HTTP interface of the gateway: gateway/app/models/schemas.py and gateway/app/api.
pub mod Json
pub mod Envelope
pub mod Dicts
pub mod Renames
pub mod Validation
pub mod Payloads
pub mod Gateway
pub mod NodeRoutes
pub mod FleetRoutes
pub mod Serving
pub mod Configs
pub mod Sending
pub mod Pages
pub mod Overview
pub mod Translate
pub mod CompatRoutes
pub mod Translated
pub mod Resending
pub mod AdminRoutes
pub mod FleetStatus
pub mod FleetTotals
pub mod Errors
pub mod Wire
pub mod Watcher
