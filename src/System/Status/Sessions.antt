-- ===== src/System/Status/Sessions.antt =====
-- What a status notification does to the sessions: nothing.
use evsys.Common.{
  Option, String, ap, arith, false, get, if_ind, if_true, int_has_eq, ltb_ℤ, nat_has_eq, pos, refl,
  some, string_has_eq, true, ℕ, ℤ, ◌<ℤ◌, ◌==◌, ◌∙◌, ◌≡◌,
}
use evsys.Entity.{Connector}
use evsys.System.Laws.{Laws}
use evsys.System.Listen.{check_listen_transaction}
use evsys.System.Lookup.{store_connector}
use evsys.System.Lookup.Known.{
  InMemory, get-save, get-set_connector, get_charge_point_known, get_connector_known, listen_frame,
}
use evsys.System.State.{
  ChargePointState, Services, System, notify, save, set_connector, status_notice,
}
use evsys.System.Status.{
  StatusNotificationRequest, connector_status, on_status_notification, point_status,
  reported_connector, state_from_status, status_from, stored_if_set,
}
use evsys.V16.Status.{available}

-- The connector reports; its session and its limit are as they were.
pub record Reports (req : StatusNotificationRequest) (old c : Connector) : Type 0 where
  pub status : c.status ≡ req.status
  pub state : c.state ≡ state_from_status req.status
  pub error_code : c.error_code ≡ req.error_code
  pub same_session : c.current_transaction_id ≡ old.current_transaction_id
  pub same_limit : c.current_power_limit ≡ old.current_power_limit

reported_connector-Reports :
    (req : StatusNotificationRequest) (now : ℕ) (c : Connector)
    → Reports req c (reported_connector req now c)
unfolding reported_connector
reported_connector-Reports req now c = record {
  status = refl;
  state = refl;
  error_code = refl;
  same_session = refl;
  same_limit = refl;
}

-- The state of the charge point with the error code of the request.
with_error : StatusNotificationRequest → ChargePointState → ChargePointState
with_error req st = record st { error_code = req.error_code }

reported_owner :
    (req : StatusNotificationRequest) (now : ℕ) (c : Connector)
    → (reported_connector req now c).charge_point_id ≡ c.charge_point_id
unfolding reported_connector
reported_owner req now c = refl

positive_lem : (z : ℤ) → pos 0 <ℤ z → ltb_ℤ (pos 0) z ≡ true
positive_lem z h = ground arith

module _ {sv : Services} where
  stored_store :
      (laws : Laws sv) (c : Connector) (s : System sv) (j : ℤ)
      → sv.get_transaction (stored_if_set c s).store j ≡ sv.get_transaction s.store j
  unfolding stored_if_set store_connector
  stored_store laws c s j =
      if_ind (λ (u : System sv). sv.get_transaction u.store j ≡ sv.get_transaction s.store j)
        sv.has_database (store_connector c s) s (laws.after_update_connector s.store c j) refl

  stored_points :
      (c : Connector) (s : System sv) → (stored_if_set c s).charge_points ≡ s.charge_points
  unfolding stored_if_set store_connector
  stored_points c s =
      if_ind (λ (u : System sv). u.charge_points ≡ s.charge_points) sv.has_database
        (store_connector c s) s refl refl

  -- The state before the connector is looked at for its meter values.
  noticed : StatusNotificationRequest → ℕ → Connector → ChargePointState → System sv → System sv
  noticed req now c st s =
      let c' = reported_connector req now c in
      notify (status_notice req.connector_id req.status)
        (stored_if_set c' (save (set_connector req.connector_id c' st) s))

  status_known :
      (cp : String) (req : StatusNotificationRequest) (now : ℕ) (s : System sv)
      {st : ChargePointState} {c : Connector}
      → InMemory cp req.connector_id st c s
      → pos 0 <ℤ req.connector_id
      → let st' = with_error req st in
        on_status_notification cp req now s ≡ (
          req.status == available,
          check_listen_transaction
              (reported_connector req now c)
              st.model.is_online
              (noticed req now c st' (save st' s)),
        )
  unfolding on_status_notification status_from connector_status noticed with_error
  status_known cp req now s {st = st} {c = c} m positive =
      let st' = with_error req st in
      let s1 = save st' s in
      ap (λ (r : Option ChargePointState × System sv). status_from req now r)
        (get_charge_point_known cp s m.present)
      ∙ if_true _ (false, point_status req now st' s1) (positive_lem req.connector_id positive)
      ∙ ap
          (λ (r : Connector × ChargePointState × System sv).
            (req.status == available, connector_status req now r))
          (get_connector_known req.connector_id st' s1 m.connected)

  noticed_points :
      (cp : String) (req : StatusNotificationRequest) (now : ℕ) (c : Connector)
      (st : ChargePointState) (s : System sv)
      → st.model.id ≡ cp
      → get cp (noticed req now c st s).charge_points
        ≡ some (set_connector req.connector_id (reported_connector req now c) st)
  unfolding noticed notify set_connector
  noticed_points cp req now c st s named =
      let c' = reported_connector req now c in
      let st' = set_connector req.connector_id c' st in
      ap (λ d. get cp d) (stored_points c' (save st' s)) ∙ get-save st' s named

  noticed_store :
      (laws : Laws sv) (req : StatusNotificationRequest) (now : ℕ) (c : Connector)
      (st : ChargePointState) (s : System sv) (j : ℤ)
      → sv.get_transaction (noticed req now c st s).store j ≡ sv.get_transaction s.store j
  unfolding noticed notify save
  noticed_store laws req now c st s j =
      let c' = reported_connector req now c in
      stored_store laws c' (save (set_connector req.connector_id c' st) s) j

  -- A status notification for a connector in memory is recorded on the connector, and changes nothing
  -- of its session: the transaction and the limit that it holds, the transactions of the charge point
  -- and every transaction document are as they were. A sweep is started exactly if the status is
  -- Available.
  pub status_keeps_sessions :
      (laws : Laws sv) (cp : String) (req : StatusNotificationRequest) (now : ℕ) (s : System sv)
      {st : ChargePointState} {c : Connector}
      → InMemory cp req.connector_id st c s
      → pos 0 <ℤ req.connector_id
      → (s' : System sv) × (st' : ChargePointState) × (c' : Connector) × (on_status_notification cp
            req now s
          ≡ (req.status == available, s'))
        × (get cp s'.charge_points ≡ some st')
        × (get req.connector_id st'.connectors ≡ some c')
        × Reports req c c'
        × (st'.transactions ≡ st.transactions)
        × ((j : ℤ) → sv.get_transaction s'.store j ≡ sv.get_transaction s.store j)
  unfolding with_error set_connector save
  status_keeps_sessions laws cp req now s {st = st} {c = c} m positive =
      let c' = reported_connector req now c in
      let st1 = with_error req st in
      let st' = set_connector req.connector_id c' st1 in
      let n = noticed req now c st1 (save st1 s) in
      let s' = check_listen_transaction c' st.model.is_online n in
      let there = noticed_points cp req now c st1 (save st1 s) m.named in
      let frame =
        listen_frame c' st.model.is_online n
          (ap (λ k. get k n.charge_points) (reported_owner req now c ∙ m.owned) ∙ there) in
      (
        s',
        st',
        c',
        status_known cp req now s m positive,
        ap (λ (u : System sv). get cp u.charge_points) frame ∙ there,
        get-set_connector req.connector_id c' st1,
        reported_connector-Reports req now c,
        refl,
        λ j.
            ap (λ (u : System sv). sv.get_transaction u.store j) frame
            ∙ noticed_store laws req now c st1 (save st1 s) j,
      )
