-- ===== src/Workflow.antt =====
-- internal/workflow: the configuration of workflows and the execution of their steps.
pub mod Config
pub mod Kinds
pub mod HttpCall
pub mod SqlParams
pub mod Query
pub mod Context
pub mod Executor
pub mod Handler
pub mod Validate
pub mod Aliases
mod Tests
