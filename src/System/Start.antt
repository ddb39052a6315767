-- ===== src/System/Start.antt =====
-- `OnStartTransaction` of server/system_handler.go: a charge point reports that a session began.
pub mod Fresh
pub mod Refused
pub mod Stored
use evsys.Common.{
  Option, String, [], false, if◌then◌else◌, int64, int_has_eq, leb_ℤ, nat_has_eq, none, not, pos,
  some, string_has_eq, true, ℕ, ℤ, ◌&&◌, ◌+ℤ◌, ◌==◌,
}
use evsys.Entity.{Connector, Transaction, UserTag}
use evsys.System.Listen.{check_listen_transaction}
use evsys.System.Lookup.{get_charge_point, get_connector, get_user_tag, released, store_connector}
use evsys.System.State.{
  ChargePointState, Lookup, Services, StartTransactionRequest, System, billing_alert, busy_alert,
  failed, found, not_found, notify, register_transaction, save, set_connector, transaction_start,
  unregister_transaction,
}

abbrev pub authorization_accepted : String
authorization_accepted = "Accepted"

abbrev pub authorization_blocked : String
authorization_blocked = "Blocked"

abbrev pub authorization_concurrent_tx : String
authorization_concurrent_tx = "ConcurrentTx"

pub record StartTransactionResponse : Type 0 where
  pub status : String
  pub transaction_id : ℤ

abbrev blocked : StartTransactionResponse
blocked = record { status = authorization_blocked; transaction_id = pos 0 }

-- What the handler finds out about the transaction that the connector holds.
pub data Held : Type 0 where
  vacant unreadable running stale busy : Held

unfoldable pub classify : Connector → Lookup Transaction → Held
classify c failed = unreadable
classify c not_found = vacant
classify c (found t) =
    if not t.is_finished && t.connector_id == c.id
    then running
    else if t.is_finished
    then stale
    else busy

-- The transaction of a new session.
unfoldable pub new_transaction : String → StartTransactionRequest → UserTag → ℕ → ℤ → Transaction
new_transaction cp req tag now id = record {
  id = id;
  session_id = if tag.source == "OCPI" then tag.id_tag else "";
  is_finished = false;
  connector_id = req.connector_id;
  charge_point_id = cp;
  id_tag = tag.id_tag;
  reservation_id = req.reservation_id;
  meter_start = req.meter_start;
  meter_stop = pos 0;
  time_start = elim req.timestamp [ none ↦ now | some t ↦ t ];
  time_stop = 0;
  reason = "";
  id_tag_note = tag.note;
  username = tag.username;
  payment_amount = pos 0;
  plan = none;
  meter_values = [];
  user_tag = some tag;
  protocol_version = "";
  evse_id = none;
  metadata = [];
}

module _ {sv : Services} where
  unfoldable pub held : Connector → System sv → Held
  unfolding classify
  held c s =
      if leb_ℤ (pos 0) c.current_transaction_id && sv.has_database
      then classify c (sv.get_transaction s.store c.current_transaction_id)
      else vacant

  -- The writes for a new transaction; billing may set its payment plan first.
  unfoldable pub store_transaction : Transaction → UserTag → Connector → System sv → System sv
  unfolding notify
  store_transaction t tag c s =
      if sv.has_database
      then (let s1 = record s { store = (sv.update_tag_last_seen s.store tag).0 } in
          let (t', billed) = if sv.has_billing then sv.on_billing_start t else (t, true) in
          let s2 = if billed then s1 else notify (billing_alert t.id) s1 in
          let added = (sv.add_transaction s2.store t').0 in
          record s2 { store = (sv.update_connector added c).0 })
      else s

  -- The handler's second half, on a connector that is free.
  unfoldable pub begin :
      String
      → StartTransactionRequest
      → ℕ
      → Connector
      → ChargePointState
      → System sv
      → StartTransactionResponse × Connector × System sv
  unfolding get_user_tag new_transaction store_transaction set_connector register_transaction save
      notify
  begin cp req now c st s =
      let (tag, s1) = get_user_tag req.id_tag now s in
      let t = new_transaction cp req tag now s1.next_transaction_id in
      let c' = record c { current_transaction_id = t.id; current_power_limit = pos 0 } in
      let st' = register_transaction t.id (set_connector req.connector_id c' st) in
      let s2 =
        save st' (record s1 { next_transaction_id = int64 (s1.next_transaction_id +ℤ pos 1) }) in
      let s3 = notify (transaction_start t.id) (store_transaction t tag c' s2) in
      (record { status = authorization_accepted; transaction_id = t.id }, c', s3)

  -- A pointer that a stop left behind is cleared before the session begins.
  unfoldable pub begin_after_stale :
      String
      → StartTransactionRequest
      → ℕ
      → Connector
      → ChargePointState
      → System sv
      → StartTransactionResponse × Connector × System sv
  unfolding begin released set_connector unregister_transaction store_connector save
  begin_after_stale cp req now c st s =
      let c' = released c in
      let st' =
        set_connector req.connector_id c' (unregister_transaction c.current_transaction_id st) in
      begin cp req now c' st' (store_connector c' (save st' s))

  unfoldable pub answer_start :
      Held
      → String
      → StartTransactionRequest
      → ℕ
      → Connector
      → ChargePointState
      → System sv
      → StartTransactionResponse × Connector × System sv
  unfolding begin begin_after_stale notify
  answer_start vacant cp req now c st s = begin cp req now c st s
  answer_start stale cp req now c st s = begin_after_stale cp req now c st s
  answer_start unreadable cp req now c st s = (blocked, c, s)
  answer_start running cp req now c st s =
      (record { status = authorization_accepted; transaction_id = c.current_transaction_id }, c, s)
  answer_start busy cp req now c st s = (
    record { status = authorization_concurrent_tx; transaction_id = c.current_transaction_id },
    c,
    notify (busy_alert c.current_transaction_id) s,
  )

  -- The handler on a charge point that is known, up to the deferred call at its end.
  unfoldable pub start_at :
      String
      → StartTransactionRequest
      → ℕ
      → ChargePointState
      → System sv
      → StartTransactionResponse × Connector × System sv
  unfolding get_connector held answer_start
  start_at cp req now st s =
      let (c, st', s') = get_connector req.connector_id st s in
      answer_start (held c s') cp req now c st' s'

  start_from :
      Option ChargePointState × System sv
      → String
      → StartTransactionRequest
      → ℕ
      → StartTransactionResponse × System sv
  unfolding start_at check_listen_transaction
  start_from (none, s) cp req now = (blocked, s)
  start_from (some st, s) cp req now =
      let (reply, c, s') = start_at cp req now st s in
      (reply, check_listen_transaction c st.model.is_online s')

  unfoldable pub on_start_transaction :
      String → StartTransactionRequest → ℕ → System sv → StartTransactionResponse × System sv
  unfolding start_from get_charge_point
  on_start_transaction cp req now s = start_from (get_charge_point cp s) cp req now
