-- ===== src/Tests.antt =====
-- The theorems at concrete inputs.
pub mod Net
pub mod Wire
pub mod Text
pub mod Tunnel
pub mod Agent
pub mod Controller
pub mod Header
pub mod Serving
pub mod Options
pub mod Log
pub mod Lifecycle
pub mod Sockets
pub mod Channel
pub mod Admission
pub mod Conversation
