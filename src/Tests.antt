-- ===== src/Tests.antt =====
-- Runs of the program's functions on concrete inputs, and the theorems applied to them.
pub mod Layouts
pub mod Structs
pub mod Traces
pub mod Entries
pub mod Programs
pub mod Pipelines
pub mod Files
pub mod BaseClasses
pub mod Comparisons
pub mod Values
pub mod Producers
pub mod Extraction
