-- ===== src/AuthTable.antt =====
-- src/auth_table.hpp: the users, and the auth-file that keeps them.
pub mod Types
pub mod Split
pub mod Stoi
pub mod File
