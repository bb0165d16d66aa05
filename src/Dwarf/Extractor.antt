-- ===== src/Dwarf/Extractor.antt =====
-- py_etiss_xvalid/dwarf_info_extractor.py: the debug information of a binary, as pyelftools reads
-- it, to the pipeline's own.
pub mod Die
pub mod TypeRec
pub mod Place
pub mod Traversal
pub mod Frames
pub mod Binary
