-- ===== src/Samples.antt =====
-- rpcserver/mpack_test.cpp: sample messages and what is written of them.
pub mod Build
pub mod Parse
pub mod Stream
pub mod ReadBack
pub mod Run
