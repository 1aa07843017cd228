-- ===== src/Extern.antt =====
-- What the program calls and does not implement: interfaces to third-party packages, each a record
-- of operations and of the laws that the program relies on.
pub mod Buffer
pub mod Channel
pub mod Channels
pub mod DashMap
