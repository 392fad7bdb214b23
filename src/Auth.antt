-- ===== src/Auth.antt =====
-- src/msgate/auth, as far as the web pages go: the password of the administrator, the signed cookie,
-- and the gate before the routes.
pub mod Passwords
pub mod Admin
pub mod Session
pub mod Gate
pub mod Routes
