-- ===== src/Linux.antt =====
-- The sources under src/linux: the disk as a device node, the bytes that are written to it, and the
-- restore. What the kernel, the tools and the user answer is an argument of each definition.
pub mod Identity
pub mod Sysfs
pub mod Enumerate
pub mod Writes
pub mod Loop
pub mod Tools
pub mod Unmount
pub mod Format
pub mod Restore
pub mod Client
pub mod Helper
pub mod Service
