-- ===== src/Rep.antt =====
-- rpcserver/rpc_comm.h, rpc_comm.cpp, rpc_request_add.cpp, rpc_hashmgr.cpp and rpcs.cpp: the older
-- server, whose worker threads receive [function, [parameters]] on a REP socket and reply on it.
pub mod Comm
pub mod Add
pub mod Manager
pub mod Worker
pub mod Buffers
pub mod Start
pub mod Params
pub mod Sum
pub mod Answer
pub mod EndToEnd
pub mod ReadBack
pub mod Main2
pub mod Freed
pub mod OpenRpc
