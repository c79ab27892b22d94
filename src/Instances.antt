-- ===== src/Instances.antt =====
-- Concrete libraries that meet the interfaces, for tests and examples: a MessagePack reader and
-- writer, and a table as a list of pairs. They show that the assumptions can be met together.
pub mod ListHash
pub mod SimplePack
pub mod SimpleReading
pub mod ListQueue
