-- ===== src/System/Meters/Recording.antt =====
-- What meter values are recorded for.
use evsys.Common.{
  Bool-cases, List, Option, String, [], ap, get, get-put_ne, if_false, if_true, inl, inr,
  int_has_eq, ltb_ℤ, nat_has_eq, pos, put, refl, some, string_has_eq, true, ℕ, ℤ, ◌∙◌, ◌∷◌, ◌≡◌,
  ◌≢◌,
}
use evsys.Entity.{Connector, MeterValue, Transaction, TransactionMeter, new_meter}
use evsys.System.Laws.{Laws}
use evsys.System.Lookup.Known.{InMemory, get_charge_point_known, get_connector_known}
use evsys.System.Meters.{
  MeterValuesRequest, add_readings, keep_meter, metered, metered_transaction, meters_from,
  meters_of, on_meter_values, record_meter, record_meters, with_reported_power,
}
use evsys.System.State.{
  ChargePointState, Outcome, Services, System, found, panicked, returned, ◌>>=◌,
}
use evsys.System.Stop.{timestamp_or}

module _ {sv : Services} where
  meters_known :
      (cp : String) (req : MeterValuesRequest) (now : ℕ) (s : System sv) {st : ChargePointState}
      {c : Connector}
      → InMemory cp req.connector_id st c s
      → on_meter_values cp req now s ≡ meters_of (metered_transaction req c) req now c s
  unfolding on_meter_values meters_from
  meters_known cp req now s {st = st} m =
      ap (λ (r : Option ChargePointState × System sv). meters_from r req now)
        (get_charge_point_known cp s m.present)
      ∙ ap
          (λ (r : Connector × ChargePointState × System sv).
            meters_of (metered_transaction req r.0) req now r.0 r.2)
          (get_connector_known req.connector_id st s m.connected)

  -- Readings of `t` are recorded: only the readings change, and of the last readings kept in memory only
  -- that of `t`.
  abbrev pub Records : Transaction → System sv → System sv → Type 0
  Records t s s' =
      (s'.charge_points ≡ s.charge_points)
      × (s'.trigger ≡ s.trigger)
      × ((j : ℤ) → sv.get_transaction s'.store j ≡ sv.get_transaction s.store j)
      × ((j : ℤ) → t.id ≢ j → get j s'.last_meter ≡ get j s.last_meter)

  keep_meter_lem :
      (laws : Laws sv) (t : Transaction) (m : TransactionMeter) (s : System sv)
      → sv.has_billing ≡ true
      → (s' : System sv) × (keep_meter t m s ≡ returned s') × Records t s s'
  unfolding keep_meter
  keep_meter_lem laws t m s billing = elim (Bool-cases (ltb_ℤ (pos 0) m.value)) [
    | inl read ↦
        let priced = (sv.on_billing_meter t (with_reported_power m)).0 in
        (
          record s {
            last_meter = put t.id priced s.last_meter;
            store = (sv.add_transaction_meter_value s.store priced).0;
          },
          if_true _ (returned s) read ∙ if_true _ panicked billing,
          (
            refl,
            refl,
            λ j. laws.after_add_meter_value s.store priced j,
            λ j ne. get-put_ne t.id j priced s.last_meter ne,
          ),
        )
    | inr empty_ ↦ (s, if_false _ (returned s) empty_, (refl, refl, λ j. refl, λ j ne. refl))
  ]

  record_meters_lem :
      (laws : Laws sv) (id : ℤ) (c : Connector) (t : Transaction) (now : ℕ) (mvs : List MeterValue)
      (s : System sv)
      → sv.has_billing ≡ true
      → (s' : System sv) × (record_meters id c t now mvs s ≡ returned s') × Records t s s'
  unfolding record_meters record_meter
  record_meters_lem laws id c t now [] s billing = (s, refl, (refl, refl, λ j. refl, λ j ne. refl))
  record_meters_lem laws id c t now (mv ∷ mvs) s billing =
      let time = timestamp_or now mv.timestamp in
      let m =
        add_readings t (get t.id s.last_meter) (new_meter id c.id c.status time) mv.sampled_value in
      let (s1, done1, (points1, trigger1, docs1, last1)) = keep_meter_lem laws t m s billing in
      let (s2, done2, (points2, trigger2, docs2, last2)) =
        record_meters_lem laws id c t now mvs s1 billing in
      (
        s2,
        ap (λ (o : Outcome (System sv)). o >>= record_meters id c t now mvs) done1 ∙ done2,
        (
          points2 ∙ points1,
          trigger2 ∙ trigger1,
          λ j. docs2 j ∙ docs1 j,
          λ j ne. last2 j ne ∙ last1 j ne,
        ),
      )

  meters_of_found :
      (id : ℤ) (req : MeterValuesRequest) (now : ℕ) (c : Connector) (s : System sv)
      {t : Transaction}
      → sv.has_database ≡ true
      → sv.get_transaction s.store id ≡ found t
      → meters_of (some id) req now c s ≡ record_meters id c t now req.meter_value s
  unfolding meters_of metered
  meters_of_found id req now c s set read =
      if_true _ (returned s) set ∙ ap (λ a. metered a id c now req.meter_value s) read

  -- With a database and billing set, meter values for a stored transaction, at a charge point and a
  -- connector in memory, always go through and are only recorded: no charge point, watched connector
  -- or transaction document changes, and of the last readings only that of the transaction.
  pub meter_values_only_record :
      (laws : Laws sv) (cp : String) (req : MeterValuesRequest) (now : ℕ) (s : System sv)
      {st : ChargePointState} {c : Connector} {id : ℤ} {t : Transaction}
      → InMemory cp req.connector_id st c s
      → sv.has_database ≡ true
      → sv.has_billing ≡ true
      → metered_transaction req c ≡ some id
      → sv.get_transaction s.store id ≡ found t
      → (s' : System sv) × (on_meter_values cp req now s ≡ returned s') × Records t s s'
  meter_values_only_record laws cp req now s {c = c} {id = id} {t = t} m set billing named read =
      let (s', done_, records) = record_meters_lem laws id c t now req.meter_value s billing in
      (
        s',
        meters_known cp req now s m
            ∙ ap (λ o. meters_of o req now c s) named
            ∙ meters_of_found id req now c s set read
            ∙ done_,
        records,
      )
