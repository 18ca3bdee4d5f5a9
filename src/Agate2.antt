-- ===== src/Agate2.antt =====
-- src/agate2: the second version of agate.
pub mod Atomic
pub mod Async
pub mod Pool
pub mod Channel
pub mod Context
