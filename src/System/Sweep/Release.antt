-- ===== src/System/Sweep/Release.antt =====
-- What the sweep leaves of a transaction that it closes: its document and its connector.
use evsys.Common.{
  Bool, List, Option, String, ap, arith, false, get, if_ind, if◌then◌else◌, int_has_eq, nat_has_eq,
  none, refl, some, string_has_eq, true, ℤ, ◌==◌, ◌∙◌, ◌≡◌,
}
use evsys.Entity.{Connector, Transaction, TransactionMeter}
use evsys.System.Laws.{Laws}
use evsys.System.Lookup.{released}
use evsys.System.Lookup.Known.{
  InMemory, get-save, get-set_connector, get_charge_point_known, get_connector_known,
}
use evsys.System.State.{
  ChargePointState, Services, System, notify, save, set_connector, swept_alert,
  unregister_transaction,
}
use evsys.System.Stop.{force_release, is_system_closed_reason, with_meter_values}
use evsys.System.Sweep.{closed_by_system, release_at, release_connector, settle}

-- The transaction as the sweep closes it: finished, with the reason of the sweep, and with the figures
-- of the last reading or, where none arrived, with no duration.
pub record IsSwept (last : Option TransactionMeter) (old t : Transaction) : Type 0 where
  pub same_id : t.id ≡ old.id
  pub same_connector : t.connector_id ≡ old.connector_id
  pub same_charge_point : t.charge_point_id ≡ old.charge_point_id
  pub start_kept : t.meter_start ≡ old.meter_start
  pub finished : t.is_finished ≡ true
  pub system_closed : is_system_closed_reason t.reason ≡ true
  pub reading :
      {m : TransactionMeter} → last ≡ some m → (t.meter_stop ≡ m.value) × (t.time_stop ≡ m.time)
  pub no_duration : last ≡ none → (t.time_stop ≡ t.time_start) × (t.meter_stop ≡ old.meter_stop)

-- A free connector, or the connector as it was where it holds another transaction.
unfoldable pub swept_connector : ℤ → Connector → Connector
unfolding released
swept_connector id c = if c.current_transaction_id == id then released c else c

pub closed_by_system-IsSwept :
    (last : Option TransactionMeter) (all : Option (List TransactionMeter)) (t : Transaction)
    → IsSwept last t (closed_by_system last all t)
unfolding closed_by_system is_system_closed_reason with_meter_values
closed_by_system-IsSwept none all t = record {
  same_id = refl;
  same_connector = refl;
  same_charge_point = refl;
  start_kept = refl;
  finished = refl;
  system_closed = refl;
  reading = λ e. ground arith;
  no_duration = λ e. (refl, refl);
}
closed_by_system-IsSwept (some m) none t = record {
  same_id = refl;
  same_connector = refl;
  same_charge_point = refl;
  start_kept = refl;
  finished = refl;
  system_closed = refl;
  reading = λ e. ground arith;
  no_duration = λ e. ground arith;
}
closed_by_system-IsSwept (some m) (some all) t = record {
  same_id = refl;
  same_connector = refl;
  same_charge_point = refl;
  start_kept = refl;
  finished = refl;
  system_closed = refl;
  reading = λ e. ground arith;
  no_duration = λ e. ground arith;
}

module _ {sv : Services} where
  pub billed_IsSwept :
      (laws : Laws sv) (last : Option TransactionMeter) (old t : Transaction)
      → IsSwept last old t
      → IsSwept last old (sv.on_billing_finished t).0
  billed_IsSwept laws last old t h = rw (laws.billing_finished t) record {
    same_id = h.same_id;
    same_connector = h.same_connector;
    same_charge_point = h.same_charge_point;
    start_kept = h.start_kept;
    finished = h.finished;
    system_closed = h.system_closed;
    reading = λ {m} e. h.reading e;
    no_duration = λ e. h.no_duration e;
  }

  release_at_known :
      (t : Transaction) (st : ChargePointState) {c : Connector} (s : System sv)
      → get t.connector_id st.connectors ≡ some c
      → release_at (some st, s) t
        ≡ release_connector t.id t.connector_id c
            (unregister_transaction t.id st)
            (save (unregister_transaction t.id st) s)
  unfolding release_at unregister_transaction
  release_at_known t st s h =
      let st' = unregister_transaction t.id st in
      ap
        (λ (r : Connector × ChargePointState × System sv).
          release_connector t.id t.connector_id r.0 r.1 r.2)
        (get_connector_known t.connector_id st' (save st' s) h)

  -- What is left in memory of the transaction `id`: its connector `key` is `c`.
  pub record IsReleased (cp : String) (key id : ℤ) (c : Connector) (s : System sv) : Type 0 where
    pub state : ChargePointState
    pub present : get cp s.charge_points ≡ some state
    pub connected : get key state.connectors ≡ some c
    pub unregistered : get id state.transactions ≡ none
    pub unwatched : get id s.trigger ≡ none

  release_if_IsReleased :
      {cp : String} (b : Bool) (id key : ℤ) (c : Connector) (st : ChargePointState) (s : System sv)
      → st.model.id ≡ cp
      → get key st.connectors ≡ some c
      → get id st.transactions ≡ none
      → get id s.trigger ≡ none
      → get cp s.charge_points ≡ some st
      → IsReleased cp key id
          (if b then released c else c)
          (if b then force_release key c st s else s)
  unfolding force_release
  release_if_IsReleased true id key c st s named h gone unwatched present = record {
    state = set_connector key (released c) st;
    present = get-save (set_connector key (released c) st) s named;
    connected = get-set_connector key (released c) st;
    unregistered = gone;
    unwatched = unwatched;
  }
  release_if_IsReleased false id key c st s named h gone unwatched present = record {
    state = st;
    present = present;
    connected = h;
    unregistered = gone;
    unwatched = unwatched;
  }

  pub release_connector-IsReleased :
      {cp : String} (id key : ℤ) (c : Connector) (st : ChargePointState) (s : System sv)
      → st.model.id ≡ cp
      → get key st.connectors ≡ some c
      → get id st.transactions ≡ none
      → get id s.trigger ≡ none
      → get cp s.charge_points ≡ some st
      → IsReleased cp key id (swept_connector id c) (release_connector id key c st s)
  unfolding release_connector swept_connector
  release_connector-IsReleased id key c st s named h gone unwatched present =
      release_if_IsReleased (c.current_transaction_id == id) id key c st s named h gone unwatched
        present

  pub release_connector_store :
      (laws : Laws sv) (id key : ℤ) (c : Connector) (st : ChargePointState) (s : System sv) (j : ℤ)
      → sv.get_transaction (release_connector id key c st s).store j ≡ sv.get_transaction s.store j
  unfolding release_connector force_release
  release_connector_store laws id key c st s j =
      if_ind (λ (u : System sv). sv.get_transaction u.store j ≡ sv.get_transaction s.store j)
        (c.current_transaction_id == id) (force_release key c st s) s
        (laws.after_update_connector s.store (released c) j) refl

  -- The state in which `settle` looks for the charge point.
  unfoldable pub updated_state : Transaction → System sv → System sv
  updated_state t s = record s { store = (sv.update_transaction s.store t).0 }

  -- `settle` after the release of the connector.
  pub settled : Transaction → System sv → System sv
  settled t s =
      notify (swept_alert t.id)
        (record s { store = (sv.delete_transaction_meter_values s.store t.id).0 })

  pub settle_known :
      {cp : String} (t : Transaction) (s : System sv) {st : ChargePointState} {c : Connector}
      → InMemory cp t.connector_id st c s
      → t.charge_point_id ≡ cp
      → let st' = unregister_transaction t.id st in
        settle t s
        ≡ settled t (release_connector t.id t.connector_id c st' (save st' (updated_state t s)))
  unfolding settle settled updated_state
  settle_known t s {st = st} m at = ap (settled t) (
      ap (λ (r : Option ChargePointState × System sv). release_at r t)
        (get_charge_point_known t.charge_point_id (updated_state t s)
          (ap (λ k. get k s.charge_points) at ∙ m.present))
      ∙ release_at_known t st (updated_state t s) m.connected)

  pub settled-IsReleased :
      {cp : String} {key id : ℤ} {c : Connector} (t : Transaction) (s : System sv)
      → IsReleased cp key id c s
      → IsReleased cp key id c (settled t s)
  unfolding settled notify
  settled-IsReleased t s h = record {
    state = h.state;
    present = h.present;
    connected = h.connected;
    unregistered = h.unregistered;
    unwatched = h.unwatched;
  }

  pub settled_store :
      (laws : Laws sv) (t : Transaction) (s : System sv) (j : ℤ)
      → sv.get_transaction (settled t s).store j ≡ sv.get_transaction s.store j
  unfolding settled notify
  settled_store laws t s j = laws.after_delete_meter_values s.store t.id j
