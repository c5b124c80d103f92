-- ===== src/Auth.antt =====
-- src/modules/auth/: accounts and passwords, refresh tokens, one-time codes, two-factor login.
pub mod Accounts
pub mod Attempts
pub mod Tokens
pub mod Otp
pub mod PasswordReset
pub mod Totp
