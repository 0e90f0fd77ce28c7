-- ===== src/Auth.antt =====
-- Sign-in: src/framework/auth/pact_auth and the routes of app/api/auth.
pub mod Errors
pub mod Client
pub mod Routes
pub mod Login
pub mod MfaVerify
pub mod MfaPasskey
pub mod Logout
pub mod Tests
pub mod Settings
pub mod ReturnTo
pub mod Account
pub mod ResetPassword
pub mod PasskeyLogin
pub mod Providers
pub mod Callback
pub mod VerifyEmail
pub mod Session
pub mod OauthStart
