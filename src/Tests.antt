-- ===== src/Tests.antt =====
-- The modules of the concrete inputs: each theorem's witness, and small runs.
pub mod World
pub mod Thirty
pub mod Keys
pub mod Storage
pub mod Tops
pub mod Kernel
pub mod Collectors
pub mod Processes
pub mod Gpu
pub mod Reports
pub mod Screen
