-- ===== src/Platform.antt =====
-- include/platform and src/platform.
pub mod SignalHandler
pub mod Epoll
