-- ===== src/Policy.antt =====
-- The policy of topologies: policy/policy.go, policy/engine.go and policy/cache.go.
pub mod Text
pub mod Paths
pub mod Rules
pub mod Fields
pub mod Definitions
pub mod Checker
pub mod Walk
pub mod Engine
pub mod Sorting
pub mod Stream
pub mod OwnFiles
pub mod Caching
pub mod Reviewed
pub mod Contained
pub mod Tests
