-- ===== src/Substree.antt =====
-- The subscription tree of broker/substree.c.
pub mod Tokens
pub mod Tree
pub mod Search
pub mod Add
pub mod Deliver
mod Tests
