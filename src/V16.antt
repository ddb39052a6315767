-- ===== src/V16.antt =====
-- The messages of OCPP 1.6, ocpp/v16.
pub mod Status
