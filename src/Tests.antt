-- ===== src/Tests.antt =====
-- Runs of the models at concrete inputs, at which the theorems are applied.
pub mod Support
pub mod Private
pub mod Local
pub mod Objects
pub mod Agate2
pub mod Requests
pub mod Queue
pub mod Log
