-- ===== src/Address.antt =====
-- nginxbackend/pkg/store/address.go: the store of the endpoints. The children model, in this order,
-- the messages and the state, the maps of services and workloads, the generated configuration, and
-- the handlers; the other children prove what they do.
pub mod State
pub mod Workloads
pub mod Config
pub mod Update
pub mod Locked
pub mod Quiet
pub mod Progress
pub mod Linked
pub mod Preserved
pub mod Reachable
pub mod Lock
pub mod Recorded
pub mod Removal
pub mod Panic
pub mod Files
pub mod Affected
pub mod Rewrites
pub mod Refresh
pub mod Keys
pub mod Notifies
pub mod Samples
mod Tests
mod KeyTests
