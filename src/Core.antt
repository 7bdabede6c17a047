-- ===== src/Core.antt =====
-- The scan cycle: src/core and include/softplc/core.
pub mod Scan
