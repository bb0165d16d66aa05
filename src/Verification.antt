-- ===== src/Verification.antt =====
-- py_etiss_xvalid/verification_stage.py and entity/verification/verification_entry.py: the
-- comparison of two runs of a function, and its report.
pub mod Report
pub mod Normalize
pub mod Compare
pub mod ReturnValue
pub mod Stage
pub mod Agreement
