-- ===== src/Tests.antt =====
-- Runs on concrete values, and the theorems applied to them.
mod Data
mod QueueRuns
mod ExecutionRuns
mod RepositoryRuns
mod OtherRuns
mod ApiRuns
mod ServiceRuns
mod GeneratorRuns
mod MainRuns
mod LoopRuns
