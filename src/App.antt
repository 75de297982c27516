-- ===== src/App.antt =====
-- include/app and src/app: the shared flags and channels of the three threads.
pub mod Process
pub mod Lifecycle
pub mod Main
pub mod System
pub mod Program
