-- ===== src/Quartz/Log.antt =====
-- src/quartz/internal.hpp: the two logs of the kernel, which write from a thread of their own.
pub mod Buffered
pub mod Big
