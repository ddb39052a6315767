-- ===== src/V201/Events/Located.antt =====
-- The first half of `OnTransactionEvent` on a charge point and a connector in memory: what it notes of
-- the EVSE, before it looks at the type of the event (server/v201_handlers.go).
use evsys.Common.{
  Option, String, arith, get, int_has_eq, nat_has_eq, none, refl, some, string_has_eq, true, ℕ, ℤ,
  ◌≡◌,
}
use evsys.Entity.{Connector}
use evsys.System.Laws.{Laws}
use evsys.System.Lookup.Documents.{SameDocuments}
use evsys.System.Lookup.Known.{InMemory, get-save, get-set_connector, get_charge_point_known}
use evsys.System.State.{ChargePointState, Services, System, save, set_connector}
use evsys.V201.Events.{
  TransactionEventRequest, event_transaction, evse_id_of, get_connector_by_evse_and_connector_id,
  handle_event, on_transaction_event, set_evse, store_connector_if, update_connector_evse_id,
}

module _ {sv : Services} where
  -- The handler finds the connector `key` in memory.
  pub record Locates (cp : String) (key : ℤ) (req : TransactionEventRequest) (st : ChargePointState)
      (c : Connector) (s : System sv) : Type 0 where
    pub memory : InMemory cp key st c s
    pub found_there :
        get_connector_by_evse_and_connector_id
          (evse_id_of req.evse)
          (event_transaction cp req).connector_id
          st
          s
        ≡ (key, c, st, s)

  -- Only the EVSE of the connector may be new.
  pub record EvseIsNoted (cp : String) (key : ℤ) (st : ChargePointState) (c : Connector)
      (s : System sv) (c' : Connector) (st' : ChargePointState) (s' : System sv) : Type 0 where
    pub present : get cp s'.charge_points ≡ some st'
    pub connected : get key st'.connectors ≡ some c'
    pub same_session : c'.current_transaction_id ≡ c.current_transaction_id
    pub same_limit : c'.current_power_limit ≡ c.current_power_limit
    pub same_model : st'.model ≡ st.model
    pub same_transactions : st'.transactions ≡ st.transactions
    pub same_next : s'.next_transaction_id ≡ s.next_transaction_id
    pub same_notices : s'.notices ≡ s.notices
    pub same_documents : SameDocuments s s'

  pub store_if_points :
      (c : Connector) (s : System sv) → (store_connector_if c s).charge_points ≡ s.charge_points
  unfolding store_connector_if
  store_if_points c s = ground arith

  pub store_if_next :
      (c : Connector) (s : System sv)
      → (store_connector_if c s).next_transaction_id ≡ s.next_transaction_id
  unfolding store_connector_if
  store_if_next c s = ground arith

  store_if_notices : (c : Connector) (s : System sv) → (store_connector_if c s).notices ≡ s.notices
  unfolding store_connector_if
  store_if_notices c s = ground arith

  pub store_if_documents :
      (laws : Laws sv) (c : Connector) (s : System sv) → SameDocuments s (store_connector_if c s)
  unfolding store_connector_if
  store_if_documents laws c s j = ground (arith, laws.after_update_connector s.store c j)

  unchanged-EvseIsNoted :
      {cp : String} {key : ℤ} {st : ChargePointState} {c : Connector} {s : System sv}
      → InMemory cp key st c s
      → EvseIsNoted cp key st c s c st s
  unchanged-EvseIsNoted m = record {
    present = m.present;
    connected = m.connected;
    same_session = refl;
    same_limit = refl;
    same_model = refl;
    same_transactions = refl;
    same_next = refl;
    same_notices = refl;
    same_documents = λ j. refl;
  }

  set_evse-EvseIsNoted :
      (laws : Laws sv) (old evse_id : Option ℤ) {cp : String} {key : ℤ} {st : ChargePointState}
      {c : Connector} {s : System sv}
      → InMemory cp key st c s
      → let (c', st', s') = set_evse old evse_id key c st s in EvseIsNoted cp key st c s c' st' s'
  unfolding set_evse
  set_evse-EvseIsNoted laws (some old) evse_id m = unchanged-EvseIsNoted m
  set_evse-EvseIsNoted laws none none m = unchanged-EvseIsNoted m
  set_evse-EvseIsNoted laws none (some evse_id) {cp = cp} {key = key} {st = st} {c = c} {s = s} m =
      let c' = record c { evse_id = some evse_id } in
      let st' = set_connector key c' st in
      record {
        present = rw (store_if_points c' (save st' s)) (get-save st' s m.named);
        connected = get-set_connector key c' st;
        same_session = refl;
        same_limit = refl;
        same_model = refl;
        same_transactions = refl;
        same_next = store_if_next c' (save st' s);
        same_notices = store_if_notices c' (save st' s);
        same_documents = λ j. store_if_documents laws c' (save st' s) j;
      }

  -- What the handler does after that.
  pub on_event_located :
      (laws : Laws sv) (cp : String) (req : TransactionEventRequest) (now : ℕ) (s : System sv)
      {key : ℤ} {st : ChargePointState} {c : Connector}
      → Locates cp key req st c s
      → (c' : Connector) × (st' : ChargePointState) × (s' : System sv) × EvseIsNoted cp key st c s
          c' st' s'
        × (on_transaction_event cp req now s
            ≡ (true, handle_event now req (event_transaction cp req) key c' st' s'))
  unfolding on_transaction_event update_connector_evse_id
  on_event_located laws cp req now s {key = key} {st = st} {c = c} l =
      let (c', st', s') = set_evse c.evse_id (evse_id_of req.evse) key c st s in
      (
        c',
        st',
        s',
        set_evse-EvseIsNoted laws c.evse_id (evse_id_of req.evse) l.memory,
        rw (get_charge_point_known cp s l.memory.present, l.found_there) refl,
      )
