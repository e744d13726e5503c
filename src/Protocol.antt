-- ===== src/Protocol.antt =====
-- core/restore_protocol.h and core/restore_protocol.cpp: what the application and its privileged
-- helper say to one another.
pub mod Decimal
pub mod Arguments
pub mod Lines
pub mod Verdict
pub mod Messages
