-- ===== src/Tests.antt =====
-- Concrete inputs on which the code is run and the theorems are applied.
pub mod Memory
mod Sessions
mod Sweeping
mod Balancing
mod Connections
mod Reporting
mod Metering
mod Prices
mod Plans
mod Events201
mod Booting
mod Routing
mod Starting
