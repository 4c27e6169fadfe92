-- ===== src/Workflow/Handler.antt =====
-- internal/workflow/handler.go: the HTTP trigger of a workflow.
pub mod Parameters
pub mod Binding
pub mod Absent
pub mod Headers
pub mod Writer
pub mod Capture
pub mod Interface
pub mod Serve
pub mod Refusals
pub mod Replay
pub mod Answers
mod Tests
mod Runs
