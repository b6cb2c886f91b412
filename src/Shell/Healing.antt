-- ===== src/Shell/Healing.antt =====
-- pkg/util/shell/shell_helper.go and pkg/util/retry/retry.go: a command that fails at first, retried.
pub mod Asked
pub mod Judged
pub mod Heals
