-- ===== src/Agate2/Context.antt =====
-- src/agate2/context.cpp: the ids of objects, and the pages that their cells come from.
pub mod ObjectId
pub mod Page
pub mod PageList
