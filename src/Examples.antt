-- ===== src/Examples.antt =====
-- Concrete inputs, and what the theorems say of them.
pub mod Data
mod Stages
mod Journals
mod Paths
mod Values
mod Frames
mod Actions
pub mod LocalDirectory
mod Deployments
mod Capabilities
