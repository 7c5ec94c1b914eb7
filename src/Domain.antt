-- ===== src/Domain.antt =====
-- internal/core/domain: the records that cross a port, and the errors.
pub mod Errors
pub mod Records
