-- ===== src/Examples.antt =====
-- examples: the two programs that show what the client receives.
pub mod Gui
pub mod Feed
pub mod Programs
pub mod Shown
pub mod Screen
pub mod Runs
mod Tests
