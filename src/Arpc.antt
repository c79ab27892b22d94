-- ===== src/Arpc.antt =====
-- The folder rpc: arpcserver, the first copy of the older server. Its data are those of `Rep` but
-- for the handler, and each of its functions is translated on its own.
pub mod Comm
pub mod Add
pub mod Manager
pub mod Worker
pub mod Start
pub mod Same
pub mod Main
pub mod Main2
pub mod Serve
pub mod Calls
