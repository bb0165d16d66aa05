-- ===== src/Merger.antt =====
-- py_etiss_xvalid/dwarf_simdata_merger.py: the entries of a trace are grouped by function call.
--
-- The iterator, the list of entries and the entry under construction are shared objects in the
-- source; here each function takes them and returns them. The loops take fuel; `out_of_fuel` is no
-- Python value. Log messages are not modelled.
pub mod Action
pub mod Construct
pub mod Named
pub mod Draining
pub mod Termination
pub mod Build
pub mod Calls
pub mod Groups
