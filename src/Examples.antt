-- ===== src/Examples.antt =====
-- Concrete inputs, and each result applied to one of them.
pub mod Data
mod Time
mod Packets
mod Limits
pub mod Serving
pub mod Site
mod Launching
mod Tools
mod History
mod Commands
