-- ===== src/Site.antt =====
-- The pages under website/: the session (js/auth.js), the sign-in window (js/auth.js), billing
-- (js/billing.js) and the account application (account/js/account-app.js).
pub mod Token
pub mod Session
pub mod Errors
pub mod Modes
pub mod SignIn
pub mod Billing
pub mod AccountView
pub mod Account
pub mod NetworkMap
pub mod Landing
pub mod Samples
mod Tests
