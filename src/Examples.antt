-- ===== src/Examples.antt =====
-- Concrete machines, frames, memories and texts, on which the theorems of the other modules are applied.
pub mod Machines
pub mod Frames
pub mod Images
pub mod Texts
pub mod Processes
pub mod Blobs
pub mod Downloads
pub mod Drivers
pub mod Hosts
