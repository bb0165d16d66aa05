-- ===== src/March.antt =====
-- py_etiss_xvalid/entity/march/: return values on the RISC-V machine architectures.
pub mod StructLayout
pub mod Value
pub mod Machine
pub mod MemoryValue
pub mod StructValue
pub mod BaseClass
