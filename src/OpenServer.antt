-- ===== src/OpenServer.antt =====
-- opend1.c and client1.c: a server that opens files for a client and passes the descriptors.
pub mod Args
pub mod Fd
pub mod Server
pub mod Client
mod Witnesses
