-- ===== src/Checker.antt =====
-- internal/checker: the checks of one link.
pub mod Retry
pub mod Http
pub mod Headers
pub mod Local
