-- ===== src/Desktop.antt =====
-- The desktop client, clients/desktop/src: accounts (auth.ts) and the application (App.tsx).
pub mod Auth
pub mod Download
pub mod Attempt
pub mod Connect
pub mod Handlers
pub mod Peers
pub mod Session
pub mod View
pub mod Screen
pub mod Form
pub mod Runs
pub mod Async
pub mod World
pub mod Races
pub mod Settling
pub mod Liveness
pub mod Alone
pub mod SignedOut
mod Samples
mod Tests
mod RaceTests
mod DownloadTests
