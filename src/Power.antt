-- ===== src/Power.antt =====
-- The power management of a location: power/capabilities.go and power/load_balancer.go.
pub mod Capabilities
pub mod Balancer
pub mod Events
