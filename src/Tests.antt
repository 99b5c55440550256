-- ===== src/Tests.antt =====
-- Runs of the guard and the dashboard on concrete inputs, and a concrete kernel to run them on.
pub mod Build
pub mod Platform
pub mod Guard
pub mod Lifecycle
pub mod System
pub mod Ui
pub mod Answers
pub mod Units
pub mod Njs
pub mod Access
