-- ===== src/Extension.antt =====
-- The browser extension, clients/browser-extension/js: accounts and proxy (auth.js), the popup
-- (popup.js) and the background worker (background.js). Each handler is there in one piece, as the effects
-- that a closed popup interrupts (Closing), and from one `await` to the next, with others in between (Async,
-- World).
pub mod Auth
pub mod Proxy
pub mod Popup
pub mod Safety
pub mod Switch
pub mod Closing
pub mod Stranded
pub mod Async
pub mod World
pub mod Alone
pub mod Submissions
pub mod Settling
pub mod Overlaps
pub mod Recovery
pub mod Routing
mod Samples
mod Tests
mod AsyncTests
