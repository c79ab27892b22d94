-- ===== src/External.antt =====
-- The libraries that the program calls, as interfaces: MPack's node and writer functions, the
-- pointer hash over klib's table, and ZeroMQ's sockets. Their own code is not modelled.
pub mod MpackType
pub mod Doc
pub mod Mpack
pub mod RpcHash
pub mod Zmq
pub mod ZmqQueue
