-- ===== src/Server.antt =====
-- rpcserver/rpcserver.cpp, rpcserver.h, rpc_msg_comm.cpp and rpc_application_add.cpp: the server
-- that subscribes to requests and publishes replies.
pub mod World
pub mod Defs
pub mod Init
pub mod Request
pub mod Reply
pub mod Add
pub mod Handler
pub mod RequestId
pub mod Params
pub mod ErrorReply
pub mod AddReply
pub mod Dispatch
pub mod Application
pub mod Answer
pub mod Documents
pub mod Loop
pub mod Service
pub mod Safety
pub mod Requests
pub mod Calls
pub mod EndToEnd
pub mod ReadBack
pub mod Session
pub mod Framing
