-- ===== src/Check.antt =====
-- pkg/util/check: the checks that tests make on command output and on HTTP responses. A check logs a
-- success, or hands a message and a detail to its failure function.
pub mod Common
pub mod Output
pub mod Response
pub mod Assert
pub mod Require
pub mod Leaves
pub mod Verdict
pub mod ResponseVerdict
pub mod Isolation
pub mod Still
pub mod Onward
