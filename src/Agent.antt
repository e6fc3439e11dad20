-- ===== src/Agent.antt =====
-- agent/src/agent/main.cpp, the agent beside a private application: its streams to targets
-- (`Session`), its settings (`Options`) and its threads (`Lifecycle`).
pub mod Session
pub mod Options
pub mod Lifecycle
