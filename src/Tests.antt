-- ===== src/Tests.antt =====
-- Concrete inputs for the theorems: a floating-point unit, a tag store, programs and Modbus points.
mod SampleFpu
mod Tags
mod Ops
mod Programs
mod Points
mod Devices
mod Polling
mod Scans
mod Inputs
mod Binding
mod Lexing
mod Loading
