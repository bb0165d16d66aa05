-- ===== src/Dwarf.antt =====
-- py_etiss_xvalid/entity/dwarf/: the debug information that the pipeline keeps.
pub mod Types
pub mod Mapper
pub mod Location
pub mod Info
pub mod Producer
pub mod Extractor
pub mod Show
pub mod Overview
