-- ===== src/Tests.antt =====
-- Runs of the model at concrete inputs, and the theorems applied to them.
mod Samples
mod PolicyRuns
mod CompileRuns
mod OptimizerRuns
mod RecoverRuns
mod FacadeRuns
mod StreamRuns
mod DialectRuns
