-- ===== src/Legacy.antt =====
-- The earlier gateway in one file, gateway.py, and its tables, node_registry.sql.
pub mod Tables
pub mod Requests
pub mod NodeRoutes
pub mod Reports
pub mod Commands
pub mod Dashboard
pub mod Serving
pub mod Held
pub mod Earliest
pub mod Whole
pub mod Trimming
pub mod Integrity
pub mod Inserts
pub mod Steps
pub mod Issued
pub mod Runs
pub mod Records
pub mod Issuing
pub mod Configuring
