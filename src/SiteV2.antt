-- ===== src/SiteV2.antt =====
-- The second version of the site's code, website/js-v2, which website/account/index-v2.html loads.
pub mod Store
pub mod Session
pub mod Billing
pub mod Modes
pub mod Window
pub mod Handlers
pub mod Events
pub mod Laws
pub mod Account
pub mod Versions
pub mod Page
pub mod Landing
mod Tests
