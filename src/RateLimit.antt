-- ===== src/RateLimit.antt =====
-- gateway/app/core/rate_limit.py: the sliding-window limiters and the HTTP middleware over them.
pub mod Window
pub mod History
pub mod Bucket
pub mod Refinement
pub mod Retry
pub mod ClientIp
pub mod Middleware
pub mod Dispatch
pub mod Throughput
pub mod Paths
