-- ===== src/Server.antt =====
-- The connections of the charge points and the messages on them: server/server.go, server/message.go,
-- ocpp/common/protocol.go and ocpp/common/registry.go.
pub mod Pending
pub mod Pool
pub mod Protocol
pub mod Registry
pub mod Message
