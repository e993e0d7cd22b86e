-- ===== src/Run.antt =====
-- The modules of frontend/src/run that derive what is shown from the state of a run.
pub mod Helpers
pub mod Diagnosis
pub mod ViewModel
