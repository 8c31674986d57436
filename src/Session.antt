-- ===== src/Session.antt =====
-- cpp/tcp_session.hpp: what a client's connection does to the drawables on the screen.
pub mod Duplicates
pub mod Payload
pub mod Framing
