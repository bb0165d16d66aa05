-- ===== src/Pipeline.antt =====
-- The pipeline: py_etiss_xvalid/__main__.py, and py_etiss_xvalid/etiss_simulation.py, which runs the
-- simulator.
pub mod Step
pub mod Simulator
pub mod Stages
pub mod Extraction
pub mod Simulation
pub mod Success
pub mod Verdict
pub mod Ends
