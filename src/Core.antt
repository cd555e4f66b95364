-- ===== src/Core.antt =====
-- core: what the service does with a message.
pub mod Router
pub mod Roles
