-- ===== src/Api.antt =====
-- src/msgate/api/routes: the routes of the HTTP API that change the gateway's state or read its
-- table. Authentication stands before them, in Auth.Gate.
pub mod Settings
pub mod Sending
pub mod Traffic
pub mod Dashboard
pub mod Account
