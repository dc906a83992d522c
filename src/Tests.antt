-- ===== src/Tests.antt =====
-- Runs at concrete inputs.
mod Users
mod Login
mod ToyJson
mod Messages
mod Requests
mod Bridges
mod Sessions
mod Programs
mod ToyBoard
mod Gates
mod Systems
mod Menus
