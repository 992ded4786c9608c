-- ===== src/System.antt =====
-- nginxbackend/pkg/store: the resource store with the address store that it calls. The children
-- model, in this order, the state that the two share, the route files of resource.go, and the
-- handlers of both stores with the calls that they make of each other.
pub mod State
pub mod Routes
pub mod Handlers
pub mod Steps
pub mod Available
pub mod Kept
pub mod Collected
pub mod RouteFile
pub mod Current
pub mod Notified
pub mod Updated
pub mod Finished
pub mod Reached
pub mod Composed
pub mod Exact
pub mod Steady
pub mod Samples
mod SteadyTests
mod Tests
