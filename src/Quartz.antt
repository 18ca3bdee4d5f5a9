-- ===== src/Quartz.antt =====
-- src/quartz: the kernel's request mailbox and its priority queue, and its logs.
pub mod Request
pub mod Mailbox
pub mod RequestQueue
pub mod Log
