-- ===== src/Wire/Receiving.antt =====
-- What `recv_exact` and `recv_frame` of agent/src/common/channel.cpp read.
pub mod Exactly
pub mod Frames
pub mod Sound
