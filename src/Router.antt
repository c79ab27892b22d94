-- ===== src/Router.antt =====
-- newrpc/router3.cpp: the router that forwards requests to a handler inside the process, and sends
-- the replies back to the address that they carry in their head.
pub mod Poller
pub mod Dealer
pub mod Echo
pub mod Address
pub mod Start
pub mod Threads
pub mod Moves
pub mod Order
pub mod Progress
pub mod NoFault
