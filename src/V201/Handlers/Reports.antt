-- ===== src/V201/Handlers/Reports.antt =====
-- What a boot and a status notification of OCPP 2.0.1 do to a session: server/v201_handlers.go.
use evsys.Common.{
  String, ap, arith, get, int_has_eq, nat_has_eq, refl, some, string_has_eq, true, ℤ, ◌∙◌, ◌≡◌,
}
use evsys.Entity.{ChargePoint, Connector}
use evsys.System.Laws.{Laws}
use evsys.System.Lookup.Documents.{SameDocuments}
use evsys.System.Lookup.Known.{InMemory, get-save, get-set_connector, get_charge_point_known}
use evsys.System.State.{
  ChargePointState, Services, System, notify, returned, save, set_connector, status_notice,
}
use evsys.V201.Events.{get_connector_by_evse_and_connector_id, store_connector_if}
use evsys.V201.Events.Located.{store_if_documents, store_if_points}
use evsys.V201.Handlers.{
  BootNotificationRequest201, StatusNotificationRequest201, booted, default_heartbeat_interval,
  on_boot_notification201, on_status_notification201, registration_accepted, store_charge_point_if,
}

set_connector_transactions :
    (key : ℤ) (c : Connector) (st : ChargePointState)
    → (set_connector key c st).transactions ≡ st.transactions
unfolding set_connector
set_connector_transactions key c st = refl

module _ {sv : Services} where
  store_point_points :
      (p : ChargePoint) (s : System sv)
      → (store_charge_point_if p s).charge_points ≡ s.charge_points
  unfolding store_charge_point_if
  store_point_points p s = ground arith

  store_point_documents :
      (laws : Laws sv) (p : ChargePoint) (s : System sv)
      → SameDocuments s (store_charge_point_if p s)
  unfolding store_charge_point_if
  store_point_documents laws p s j = ground (arith, laws.after_update_charge_point s.store p j)

  -- A charge point in memory that boots is accepted and described anew, and keeps its connectors and
  -- its transactions; every transaction document is as it was.
  pub boot201_keeps_sessions :
      (laws : Laws sv) (cp : String) (req : BootNotificationRequest201) (s : System sv)
      {st : ChargePointState}
      → get cp s.charge_points ≡ some st
      → st.model.id ≡ cp
      → (st' : ChargePointState) × (s' : System sv) × (on_boot_notification201 cp req s
          ≡ returned (
            record { status = registration_accepted; interval = default_heartbeat_interval },
            s',
          ))
        × (get cp s'.charge_points ≡ some st')
        × (st'.connectors ≡ st.connectors)
        × (st'.transactions ≡ st.transactions)
        × (st'.model ≡ booted req.charging_station st.model)
        × SameDocuments s s'
  unfolding on_boot_notification201 save
  boot201_keeps_sessions laws cp req s {st = st} present named =
      let p = booted req.charging_station st.model in
      let st' = record st { model = p } in
      let s1 = save st' s in
      (
        st',
        store_charge_point_if p s1,
        rw (get_charge_point_known cp s present) refl,
        ap (λ d. get cp d) (store_point_points p s1) ∙ get-save st' s named,
        refl,
        refl,
        refl,
        λ j. store_point_documents laws p s1 j,
      )

  -- A status notification of a connector that the handler finds in memory is written to the connector,
  -- which keeps its transaction, its limit and its EVSE; the charge point keeps its transactions, and
  -- every transaction document is as it was.
  pub status201_keeps_sessions :
      (laws : Laws sv) (cp : String) (req : StatusNotificationRequest201) (s : System sv) {key : ℤ}
      {st : ChargePointState} {c : Connector}
      → InMemory cp key st c s
      → get_connector_by_evse_and_connector_id (some req.evse_id) req.connector_id st s
        ≡ (key, c, st, s)
      → (st' : ChargePointState) × (s' : System sv) × (on_status_notification201 cp req s
          ≡ (true, s'))
        × (get cp s'.charge_points ≡ some st')
        × (get key st'.connectors
            ≡ some (record c { status = req.connector_status; status_time = req.timestamp }))
        × (st'.transactions ≡ st.transactions)
        × SameDocuments s s'
  unfolding on_status_notification201 notify save
  status201_keeps_sessions laws cp req s {key = key} {st = st} {c = c} m located =
      let c' = record c { status = req.connector_status; status_time = req.timestamp } in
      let st' = set_connector key c' st in
      let s1 = save st' s in
      (
        st',
        notify (status_notice req.connector_id req.connector_status) (store_connector_if c' s1),
        rw (get_charge_point_known cp s m.present, located) refl,
        ap (λ d. get cp d) (store_if_points c' s1) ∙ get-save st' s m.named,
        get-set_connector key c' st,
        set_connector_transactions key c' st,
        λ j. store_if_documents laws c' s1 j,
      )
