-- ===== src/V201.antt =====
-- OCPP 2.0.1: ocpp/v201, the adapter server/protocol_adapter.go and the handlers
-- server/v201_handlers.go.
pub mod Floats
pub mod Types
pub mod Adapter
pub mod Events
pub mod Handlers
pub mod Commands
