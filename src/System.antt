-- ===== src/System.antt =====
-- The core handler of the central system, server/system_handler.go.
pub mod State
pub mod Lookup
pub mod Listen
pub mod Start
pub mod Stop
pub mod Sweep
pub mod Startup
pub mod Laws
pub mod Authorize
pub mod Status
pub mod Online
pub mod Meters
pub mod Boot
pub mod Commands
