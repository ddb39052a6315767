-- ===== src/System/State.antt =====
-- The state of `SystemHandler` in server/system_handler.go, and the services that it calls.
use evsys.Common.{
  Bool, Dict, List, Option, String, int_has_eq, nat_has_eq, put, remove, string_has_eq, ℕ, ℤ, ◌∷◌,
}
use evsys.Entity.{ChargePoint, Connector, MeterValue, Transaction, TransactionMeter, UserTag}

-- The answer of a lookup by id. `failed` is an error other than `mongo.ErrNoDocuments`.
pub data Lookup (A : Type 0) : Type 0 where
  found : A → Lookup A
  not_found failed : Lookup A

pub record StartTransactionRequest : Type 0 where
  pub connector_id : ℤ
  pub id_tag : String
  pub meter_start : ℤ
  pub reservation_id : Option ℤ
  pub timestamp : Option ℕ

pub record StopTransactionRequest : Type 0 where
  pub id_tag : String
  pub meter_stop : ℤ
  pub timestamp : Option ℕ
  pub transaction_id : ℤ
  pub reason : String
  pub transaction_data : List MeterValue

-- What `Authorize` of the authorization service returns.
pub record AuthResult : Type 0 where
  pub allowed : Bool
  pub expired : Bool
  pub blocked : Bool
  pub info : String

-- What the handler is built with: the operations of `internal.Database` that it calls, the billing
-- and authorization services, and its settings. The flags `has_…` say which services are set. A write
-- returns the new contents and whether it succeeded; a lookup whose error the handler ignores is
-- `none`.
pub record Services : Type 1 where
  pub Store : Type 0
  pub has_database : Bool
  pub get_charge_point_doc : Store → String → Option ChargePoint
  pub add_charge_point_doc : Store → ChargePoint → Store × Bool
  pub update_charge_point : Store → ChargePoint → Store × Bool
  pub update_charge_point_status : Store → ChargePoint → Store × Bool
  pub update_online_status : Store → String → Bool → Store × Bool
  pub get_connector_doc : Store → ℤ → String → Option Connector
  pub add_connector_doc : Store → Connector → Store × Bool
  pub update_connector : Store → Connector → Store × Bool
  pub get_transaction : Store → ℤ → Lookup Transaction
  pub add_transaction : Store → Transaction → Store × Bool
  pub update_transaction : Store → Transaction → Store × Bool
  pub read_transaction_meter_value : Store → ℤ → Option TransactionMeter
  pub read_all_transaction_meter_values : Store → ℤ → Option (List TransactionMeter)
  pub add_transaction_meter_value : Store → TransactionMeter → Store × Bool
  pub delete_transaction_meter_values : Store → ℤ → Store × Bool
  pub save_stop_transaction_request : Store → StopTransactionRequest → Store × Bool
  pub get_unfinished_transactions : Store → ℕ → ℕ → Option (List Transaction)
  pub get_unfinished_transactions_of : Store → String → Option (List Transaction)
  pub get_user_tag_doc : Store → String → Option UserTag
  pub add_user_tag : Store → UserTag → Store × Bool
  pub update_tag : Store → UserTag → Store × Bool
  pub update_tag_last_seen : Store → UserTag → Store × Bool
  pub get_active_user_tags : Store → String → ℤ → Option (List UserTag)
  pub has_billing : Bool
  pub on_billing_start : Transaction → Transaction × Bool
  pub on_billing_finished : Transaction → Transaction × Bool
  pub on_billing_meter : Transaction → TransactionMeter → TransactionMeter × Bool
  pub has_auth : Bool
  pub authorize : String → String → String → AuthResult
  pub accept_tags : Bool
  pub accept_points : Bool

pub record ChargePointState : Type 0 where
  pub status : String
  pub diagnostics_status : String
  pub firmware_status : String
  pub connectors : Dict ℤ Connector
  pub transactions : Dict ℤ ℤ
  pub error_code : String
  pub model : ChargePoint
  pub trigger_message : Bool

unfoldable pub register_transaction : ℤ → ChargePointState → ChargePointState
register_transaction id st = record st { transactions = put id id st.transactions }

unfoldable pub unregister_transaction : ℤ → ChargePointState → ChargePointState
unregister_transaction id st = record st { transactions = remove id st.transactions }

-- A write through the pointer to a connector, `key` its place among the connectors of `st`.
unfoldable pub set_connector : ℤ → Connector → ChargePointState → ChargePointState
set_connector key c st = record st { connectors = put key c st.connectors }

-- What the event listeners are told: the transaction (with the energy consumed, for a stop), the
-- status or the connector that it is about.
pub data Notice : Type 0 where
  transaction_start : ℤ → Notice
  transaction_stop : ℤ → ℤ → Notice
  busy_alert late_stop_alert finished_alert billing_alert swept_alert : ℤ → Notice
  authorize_notice : String → String → Notice
  status_notice : ℤ → String → Notice
  online_notice : String → Bool → Notice

-- `trigger` is the map of the `Trigger` of server/trigger.go: the connectors that are asked for meter
-- values, by transaction. A connector is shared by pointer: it is named by its charge point and id.
pub record System (sv : Services) : Type 0 where
  pub charge_points : Dict String ChargePointState
  pub next_transaction_id : ℤ
  pub last_meter : Dict ℤ TransactionMeter
  pub trigger : Dict ℤ (String × ℤ)
  pub notices : List Notice
  pub store : sv.Store

-- An outcome of a handler; `panicked` is a nil dereference.
pub data Outcome (A : Type 0) : Type 0 where
  returned : A → Outcome A
  panicked : Outcome A

-- A panic ends the handler.
infixl 5 ◌>>=◌
abbrev pub ◌>>=◌ : {A B : Type 0} → Outcome A → (A → Outcome B) → Outcome B
returned a >>= f = f a
panicked >>= f = panicked

module _ {sv : Services} where
  -- go h.notifyEventListeners(…)
  unfoldable pub notify : Notice → System sv → System sv
  notify n s = record s { notices = n ∷ s.notices }

  -- A write through the pointer to a charge point's state.
  unfoldable pub save : ChargePointState → System sv → System sv
  save st s = record s { charge_points = put st.model.id st s.charge_points }

  -- The Unregister and Register channels of the trigger.
  unfoldable pub trigger_unregister : ℤ → System sv → System sv
  trigger_unregister id s = record s { trigger = remove id s.trigger }

  unfoldable pub trigger_register : Connector → System sv → System sv
  trigger_register c s = record s {
    trigger = put c.current_transaction_id (c.charge_point_id, c.id) s.trigger;
  }
