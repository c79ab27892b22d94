-- ===== src/Broker.antt =====
-- rpcserver/xpubxsub.cpp and rpcserver/zmq_event_helper.cpp: the monitors of the brokers' sockets.
pub mod Event
pub mod Monitor
pub mod Setup
pub mod Main
pub mod Names
pub mod Lines
pub mod Print
pub mod Columns
pub mod Printed
