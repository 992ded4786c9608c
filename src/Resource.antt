-- ===== src/Resource.antt =====
-- nginxbackend/pkg/store/resource.go: the store of binds, listeners and routes. The children model,
-- in this order, the names of server and route files, the messages and the state, and the book-keeping
-- of the handlers; the other children prove what they do.
pub mod Names
pub mod Messages
pub mod Match
pub mod Shares
pub mod Weights
pub mod State
pub mod Book
pub mod Removals
pub mod Server
pub mod ServerBlock
pub mod Written
pub mod Remove
pub mod Stale
pub mod Settled
pub mod Leftovers
pub mod Listed
pub mod Once
pub mod Exact
pub mod Steady
pub mod History
pub mod Servers
mod Tests
