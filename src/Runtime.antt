-- ===== src/Runtime.antt =====
-- internal/runtime: the commands for a container and for a virtual machine, and what their ends mean.
pub mod Argv
pub mod Execute
pub mod Tail
