-- ===== src/Simulation.antt =====
-- py_etiss_xvalid/entity/simulation/: what one function call wrote, read and returned.
pub mod Entry
pub mod Readings
pub mod Show
