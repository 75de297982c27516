-- ===== src/Net.antt =====
-- include/net and src/net.
pub mod FrameParser
pub mod RawSocket
pub mod NetworkThread
