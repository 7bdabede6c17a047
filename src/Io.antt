-- ===== src/Io.antt =====
-- The I/O drivers: src/io and include/softplc/io.
pub mod Mapping
pub mod Client
pub mod Device
pub mod Rtu
pub mod Simulated
