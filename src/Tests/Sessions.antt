-- ===== src/Tests/Sessions.antt =====
-- A charge point with a free connector, one that starts a session on it and one that stops it.

use evsys.Common.{
  List, [], arith, false, get, inl, int_has_eq, nat_has_eq, none, pos, refl, some, string_has_eq,
  true, ℤ, ◌∷◌, ◌≡◌, ◌≢◌,
}
use evsys.Entity.{ChargePoint, Connector, Transaction, new_connector}
use evsys.System.Lookup.{new_charge_point, new_charge_point_state}
use evsys.System.Lookup.Known.{InMemory}
use evsys.System.Start.{held, on_start_transaction, vacant}
use evsys.System.Start.Fresh.{Starts, start_on_free_connector}
use evsys.System.Start.Refused.{Refusal, Untouched, start_on_held_connector}
use evsys.System.Start.Stored.{Adds, start_stores_session}
use evsys.System.State.{
  ChargePointState, StartTransactionRequest, StopTransactionRequest, System, found, returned,
}
use evsys.System.Stop.{is_repeated, on_stop_transaction}
use evsys.System.Stop.Close.{IsGone}
use evsys.System.Stop.Finished.{IsStopped}
use evsys.System.Stop.Outcomes.{stop_closes_transaction}
use evsys.System.Stop.Repeated.{stop_repeated}
use evsys.Tests.Memory.{memory, memory_laws}

abbrev pub point : ChargePoint
point = new_charge_point "CP1"

abbrev pub free_connector : Connector
free_connector = new_connector (pos 1) "CP1"

-- The connector while it holds the transaction.
abbrev pub connector_with : ℤ → Connector
connector_with id = record free_connector {
  current_transaction_id = id;
  current_power_limit = pos 32;
}

abbrev pub point_state : Connector → ChargePointState
point_state c = record (new_charge_point_state point) { connectors = (pos 1, c) ∷ [] }

abbrev pub session : ℤ → Transaction
session id = record {
  id = id;
  session_id = "";
  is_finished = false;
  connector_id = pos 1;
  charge_point_id = "CP1";
  id_tag = "TAG";
  reservation_id = none;
  meter_start = pos 100;
  meter_stop = pos 0;
  time_start = 1000;
  time_stop = 0;
  reason = "";
  id_tag_note = "";
  username = "";
  payment_amount = pos 0;
  plan = none;
  meter_values = [];
  user_tag = none;
  protocol_version = "";
  evse_id = none;
  metadata = [];
}

abbrev pub swept_session : ℤ → Transaction
swept_session id = record (session id) {
  is_finished = true;
  meter_stop = pos 900;
  time_stop = 2000;
  reason = "stopped by system";
}

abbrev pub system_of : Connector → List Transaction → System memory
system_of c ts = record {
  charge_points = ("CP1", point_state c) ∷ [];
  next_transaction_id = pos 7;
  last_meter = [];
  trigger = [];
  notices = [];
  store = record { transactions = ts; samples = [] };
}

abbrev pub ConnectorInMemory : (c : Connector) (ts : List Transaction) → Type 0
ConnectorInMemory c ts = InMemory "CP1" (pos 1) (point_state c) c (system_of c ts)

pub connector-InMemory : (id : ℤ) (ts : List Transaction) → ConnectorInMemory (connector_with id) ts
unfolding get new_charge_point new_charge_point_state new_connector
connector-InMemory id ts = record { present = refl; named = refl; connected = refl; owned = refl }

pub free-InMemory : (ts : List Transaction) → ConnectorInMemory free_connector ts
unfolding get new_charge_point new_charge_point_state new_connector
free-InMemory ts = record { present = refl; named = refl; connected = refl; owned = refl }

abbrev start_request : StartTransactionRequest
start_request = record {
  connector_id = pos 1;
  id_tag = "TAG";
  meter_start = pos 100;
  reservation_id = none;
  timestamp = some 1000;
}

abbrev stop_request : StopTransactionRequest
stop_request = record {
  id_tag = "TAG";
  meter_stop = pos 900;
  timestamp = some 5000;
  transaction_id = pos 5;
  reason = "Local";
  transaction_data = [];
}

free_is_vacant :
    (ts : List Transaction) → held free_connector (system_of free_connector ts) ≡ vacant
unfolding held new_connector
free_is_vacant ts = refl

start_on_free_connector_example :
    let s = system_of free_connector [] in
    Starts "CP1" start_request (on_start_transaction "CP1" start_request 1000 s) (pos 7)
start_on_free_connector_example =
    start_on_free_connector "CP1" start_request 1000 (system_of free_connector [])
      (free-InMemory []) (inl (free_is_vacant []))

start_stores_session_example :
    let s = system_of free_connector [] in
    Adds memory_laws "CP1" start_request
      (pos 7)
      s.store
      (on_start_transaction "CP1" start_request 1000 s).1.store
start_stores_session_example =
    start_stores_session memory_laws "CP1" start_request 1000 (system_of free_connector [])
      (free-InMemory []) refl (inl (free_is_vacant [])) (λ db t. refl) refl

start_on_held_connector_example :
    let c = connector_with (pos 5) in
    let s = system_of c (session (pos 5) ∷ []) in
    let (r, s') = on_start_transaction "CP1" start_request 1000 s in
    Refusal (found (session (pos 5))) c r × Untouched s s'
start_on_held_connector_example =
    start_on_held_connector "CP1" start_request 1000
      (system_of (connector_with (pos 5)) (session (pos 5) ∷ [])) (found (session (pos 5)))
      (connector-InMemory (pos 5) (session (pos 5) ∷ [])) refl (omega arith) refl refl

stop_closes_transaction_example :
    let s = system_of (connector_with (pos 5)) (session (pos 5) ∷ []) in
    (s' : System memory) × (t' : Transaction) × (on_stop_transaction "CP1" stop_request 5000 s
      ≡ returned s')
    × (memory.get_transaction s'.store (pos 5) ≡ found t')
    × IsStopped stop_request 5000 (session (pos 5)) t'
    × ((j : ℤ) → pos 5 ≢ j → memory.get_transaction s'.store j ≡ memory.get_transaction s.store j)
    × IsGone "CP1" (pos 1) (pos 5) s'
unfolding is_repeated
stop_closes_transaction_example =
    stop_closes_transaction memory_laws "CP1" stop_request 5000
      (system_of (connector_with (pos 5)) (session (pos 5) ∷ []))
      (connector-InMemory (pos 5) (session (pos 5) ∷ [])) refl refl (λ db t. refl) refl refl

-- The sweep closed transaction 5, transaction 6 took the connector, and the charge point then stops 5.
abbrev pub taken_over : List Transaction
taken_over = swept_session (pos 5) ∷ session (pos 6) ∷ []

late_stop_is_repeated : is_repeated stop_request (swept_session (pos 5)) ≡ true
unfolding is_repeated
late_stop_is_repeated = refl

five_ne_six : pos 5 ≢ pos 6
five_ne_six e = ground arith

stop_repeated_example :
    let s = system_of (connector_with (pos 6)) taken_over in
    (s' : System memory) × (on_stop_transaction "CP1" stop_request 5000 s ≡ returned s')
    × ((j : ℤ) → memory.get_transaction s'.store j ≡ memory.get_transaction s.store j)
    × IsGone "CP1" (pos 1) (pos 5) s'
stop_repeated_example =
    stop_repeated memory_laws "CP1" stop_request 5000
      (system_of (connector_with (pos 6)) taken_over) (connector-InMemory (pos 6) taken_over) refl
      refl late_stop_is_repeated
