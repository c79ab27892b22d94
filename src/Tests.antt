-- ===== src/Tests.antt =====
-- Runs of the model over the concrete libraries of `Instances`, and the theorems at concrete data.
pub mod Server
pub mod EndToEnd
mod Parts
mod Rep
mod Router
mod Broker
mod Samples
mod SubClient
mod Threads
pub mod Arpc
mod Calls
mod Client
mod Dump
mod Buffers
