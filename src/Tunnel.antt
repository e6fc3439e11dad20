-- ===== src/Tunnel.antt =====
-- agent/src/tunnel/main.cpp, the controller that agents dial in to: what a proxy client asks for
-- (`Header`, `Request`) and how it is served (`Admission`, `Session`, `Serving`), how agents are checked
-- (`Settings`, `Callback`, `Auth`) and kept (`Controller`), and how the tunnel is set up (`Options`).
pub mod Request
pub mod Settings
pub mod Options
pub mod Callback
pub mod Auth
pub mod Controller
pub mod Header
pub mod Session
pub mod Serving
pub mod Admission
