-- ===== src/Ews.antt =====
-- src/msgate/ews: sending through Exchange Web Services.
pub mod Mailbox
pub mod Compose
pub mod Client
