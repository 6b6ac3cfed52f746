-- ===== src/Networking.antt =====
-- networking/: addresses and the requests that are sent to them. The libraries that send them are
-- interfaces.
pub mod Url
pub mod Http
