-- ===== src/Http.antt =====
-- src/http_session.hpp, src/http_session.cpp and src/http_listener.cpp: requests and sessions.
pub mod Target
pub mod Response
pub mod Handler
pub mod Session
pub mod Listener
