-- ===== src/Store.antt =====
-- The gateway's tables and the operations on them: gateway/app/core/{db,registry,storage}.py.
pub mod Tables
pub mod Registry
pub mod Storage
pub mod Commands
pub mod Delivery
pub mod Nodes
pub mod Redelivery
pub mod Repeats
pub mod Auth
pub mod Tokens
