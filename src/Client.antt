-- ===== src/Client.antt =====
-- client/client.go: the delta xDS client. The children model, in this order, the messages and the
-- configuration with `NewADSClient`, one stream, and the reconnection loop; the other children
-- prove what they do.
pub mod Setup
pub mod Stream
pub mod Start
pub mod Preserves
pub mod Kept
pub mod Served
pub mod Answers
pub mod Backoff
pub mod Endings
pub mod Ready
mod Tests
