-- ===== src/Lib.antt =====
-- evsys, a central system for charge points of electric vehicles over OCPP. Charge points hold a
-- websocket to it; their requests are parsed, routed to handlers, and change charge points,
-- connectors and transactions, in memory and in a MongoDB database. A sweep closes the transactions
-- that no charge point stops, and a load balancer shares the power of a location among its sessions.
--
-- Which file models which part, with the paths in the repository:
--   Entity, Entity/IdTag, V16/Status: the documents of entity/ and types/, the statuses of OCPP 1.6
--   System/State: the state of SystemHandler (server/system_handler.go) and the services that it calls
--   System/Laws: what the theorems assume of the database and of billing
--   System/Startup: OnStart
--   System/Lookup: getChargePoint, addChargePoint, initializeChargePointState, getConnector, getUserTag
--   System/Listen: checkListenTransaction, with the map of server/trigger.go
--   System/Start: OnStartTransaction; System/Stop: OnStopTransaction
--   System/Sweep: checkAndFinishTransactions, reconcileChargePointTransactions,
--     finishAbandonedTransaction, releaseConnector
--   System/Authorize: authorizeIdTag; System/Status: OnStatusNotification; System/Online:
--     OnOnlineStatusChanged; System/Meters: OnMeterValues
--   System/Boot: OnBootNotification, enforceMeterValueInterval, enforceMeterMeasurands, mergeMeasurands
--   System/Commands: the commands from OnTriggerMessage to OnReset; Texts: what they and the boot use
--     of the packages strings and strconv
--   Billing, Billing/Plans, Billing/Clock: billing/affleck.go and entity/payment_plan.go
--   Power/Capabilities: power/capabilities.go
--   Power/Balancer, Power/Events: power/load_balancer.go
--   Server/Pending: the requests that wait for an answer and how they are sent, of
--     server/server.go
--   Server/Pool: the connections, of server/server.go
--   Server/Protocol: ocpp/common/protocol.go, utility/slice.go and the negotiation of server/server.go
--   Server/Registry: ocpp/common/registry.go; Server/Message: server/message.go
--   V201/Types: ocpp/v201/types.go; V201/Adapter, V201/Floats: server/protocol_adapter.go; V201/Events,
--     V201/Handlers, V201/Commands: server/v201_handlers.go
--   Central, Central/Routes, Central/Incoming, Central/Api: handleIncomingMessage, the routers and
--     handleApiRequest of server/central_system.go, up to the request that is sent
--   Tests: concrete runs of the code and of the theorems
--
-- State and operations. SystemHandler is the record System, each handler a function from it to a new
-- one; what can dereference nil returns an Outcome. The handler's lock makes a handler one step. A
-- connector that the code shares by pointer is named by its charge point and its key, and a write to
-- it is a write at that place. The database, billing, authorization, the network and the JSON decoder
-- are parameters: records of operations, with what the code relies on as named hypotheses. A Go `int`
-- is an integer with its 64-bit wrap-around written out where the code computes one; times are
-- seconds. Texts for the log, counters and the payloads of notifications are left out; what listeners
-- are told is a list.
--
-- Loops run over lists that the code has in hand, so no fuel is needed; only the rounding of an int to
-- a float64 doubles its unit on fuel 10, which reaches 2 ^ 64.
--
-- Not modelled: the queries of internal/mongo.go, the sockets and the HTTP server, configuration,
-- logging, metrics and the Telegram bot, which are input and output; the OCPI client.
pub mod Central
pub mod Common
pub mod Billing
pub mod Entity
pub mod System
pub mod Power
pub mod Server
pub mod Tests
pub mod Texts
pub mod V16
pub mod V201
