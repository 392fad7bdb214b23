-- ===== src/Tls.antt =====
-- src/msgate/tls: which version of TLS the gateway speaks with Exchange.
pub mod Profiles
pub mod Cache
pub mod Negotiate
