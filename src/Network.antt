-- ===== src/Network.antt =====
-- src/network.c: Unix domain sockets, inet sockets and the daytime server.
pub mod Uds
pub mod Inet
pub mod Daytime
