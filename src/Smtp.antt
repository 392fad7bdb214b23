-- ===== src/Smtp.antt =====
-- The SMTP side: src/msgate/smtp and the sanitizer of src/msgate/auth.
pub mod Sanitize
pub mod Access
pub mod Authenticator
pub mod Handler
