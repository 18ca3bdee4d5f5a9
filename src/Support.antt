-- ===== src/Support.antt =====
-- src/support: the synchronisation primitives that the mailboxes are built on.
pub mod Wake
pub mod Semaphore
pub mod Counter
pub mod ObjectId
pub mod ObjectManager
pub mod Flags
