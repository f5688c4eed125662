-- ===== src/Process.antt =====
-- internal/process/process.go: execution records and the bounded log writer.
pub mod Execution
pub mod Limit
