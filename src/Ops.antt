-- ===== src/Ops.antt =====
-- The operations layer: models.py, db.py, detector.py and healer.py at the repository's root.
pub mod Models
pub mod Db
pub mod Detector
pub mod Handlers
pub mod Invariant
pub mod Hotspot
pub mod Runs
pub mod Windows
pub mod Cooldown
pub mod Healer
pub mod Reflexes
pub mod Operator
pub mod Endings
pub mod Draining
pub mod Lifecycle
pub mod Races
pub mod Summaries
pub mod Rollups
pub mod Rules
pub mod Catalogs
pub mod Scoring
pub mod Scores
pub mod HealthScores
pub mod LastScores
pub mod ScoreRecords
pub mod LatestScores
