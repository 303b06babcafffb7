-- ===== src/Tui.antt =====
-- cli/tui: the text interface.
pub mod Tail
pub mod Observer
pub mod Resources
pub mod Parser
pub mod Session
pub mod Model
mod Tests
