-- ===== src/Common.antt =====
-- src/common: what master and client share.
pub mod Epoll
pub mod Socket
pub mod Pool
pub mod Listen
pub mod Float
