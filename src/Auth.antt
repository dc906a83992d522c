-- ===== src/Auth.antt =====
-- src/auth.hpp and src/auth.cpp: the permissions of an endpoint, and digest authentication.
pub mod Endpoint
pub mod Fields
pub mod Digest
