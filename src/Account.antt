-- ===== src/Account.antt =====
-- Accounts: tokens, the gates before a handler, devices, sign-in and password reset.
pub mod Devices
pub mod Token
pub mod Gates
pub mod SignIn
pub mod Reset
