-- ===== src/Safety.antt =====
-- src/core/safety.h and src/core/safety.cpp.
pub mod Sectors
pub mod Layout
pub mod Fat32
pub mod Mounts
pub mod Target
