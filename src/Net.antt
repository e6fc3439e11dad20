-- ===== src/Net.antt =====
-- agent/src/common/net.cpp: endpoints as text (`Endpoint`), the opening of sockets (`Sockets`), what the
-- operating system's sockets promise (`Posix`), and the transfer loops over them (`Transfer`), which make a socket a byte stream
-- (`Stream`).
pub mod Endpoint
pub mod Stream
pub mod Posix
pub mod Transfer
pub mod Sockets
pub mod Scripted
