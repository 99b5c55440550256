-- ===== src/Guard.antt =====
-- fips-guard: guard/src/main.rs, and the classifier that it loads, guard/bpf/shield_guard.bpf.c.
pub mod Kernel
pub mod Cmd
pub mod Bans
pub mod Lifecycle
pub mod Stats
pub mod Main
pub mod Classifier
pub mod Enforce
pub mod Build
pub mod System
