-- ===== src/System/Lookup/Counters.antt =====
-- The lookups of server/system_handler.go and the counter of the transaction ids.
use evsys.Common.{
  List, Option, String, [], arith, get, if_ind, if◌then◌else◌, int_has_eq, nat_has_eq, none, refl,
  some, string_has_eq, ◌==◌, ◌∙◌, ◌∷◌, ◌≡◌,
}
use evsys.Entity.{ChargePoint, Connector}
use evsys.System.Lookup.{
  add_charge_point, bare_state, get_charge_point, init_connector, init_connectors,
  initialize_charge_point_state, known_charge_point, loaded_charge_point, new_charge_point,
  store_connector, unknown_charge_point,
}
use evsys.System.State.{ChargePointState, Services, System, save}

module _ {sv : Services} where
  -- The two states have the same counter.
  abbrev pub SameCounter : System sv → System sv → Type 0
  SameCounter s s' = s'.next_transaction_id ≡ s.next_transaction_id

  init_connector_counter :
      (c : Connector) (st : ChargePointState) (s : System sv)
      → SameCounter s (init_connector c st s).1
  unfolding init_connector store_connector
  init_connector_counter c st s = ground arith

  init_connectors_counter :
      (cs : List Connector) (st : ChargePointState) (s : System sv)
      → SameCounter s (init_connectors cs st s).1
  unfolding init_connectors
  init_connectors_counter [] st s = refl
  init_connectors_counter (c ∷ cs) st s =
      let (st', s') = init_connector c st s in
      init_connectors_counter cs st' s' ∙ init_connector_counter c st s

  pub initialize_counter :
      (chp : ChargePoint) (s : System sv) → SameCounter s (initialize_charge_point_state chp s).1
  unfolding initialize_charge_point_state save
  initialize_counter chp s = init_connectors_counter chp.connectors (bare_state chp) s

  add_charge_point_counter : (id : String) (s : System sv) → SameCounter s (add_charge_point id s).1
  unfolding add_charge_point
  add_charge_point_counter id s =
      let chp = new_charge_point id in
      let s' =
        if sv.has_database
        then record s { store = (sv.add_charge_point_doc s.store chp).0 }
        else s in
      if_ind (λ (r : Option ChargePointState × System sv). SameCounter s r.1) (id == "") (none, s)
        (let (st, s'') = initialize_charge_point_state chp s' in (some st, s'')) refl
        (initialize_counter chp s' ∙ ground arith)

  unknown_charge_point_counter :
      (id : String) (s : System sv) → SameCounter s (unknown_charge_point id s).1
  unfolding unknown_charge_point
  unknown_charge_point_counter id s = ground (arith, add_charge_point_counter id s)

  loaded_charge_point_counter :
      (o : Option ChargePoint) (id : String) (s : System sv)
      → SameCounter s (loaded_charge_point o id s).1
  unfolding loaded_charge_point
  loaded_charge_point_counter (some chp) id s = initialize_counter chp s
  loaded_charge_point_counter none id s = unknown_charge_point_counter id s

  known_charge_point_counter :
      (o : Option ChargePointState) (id : String) (s : System sv)
      → SameCounter s (known_charge_point o id s).1
  unfolding known_charge_point
  known_charge_point_counter (some st) id s = refl
  known_charge_point_counter none id s =
      let doc = sv.get_charge_point_doc s.store id in
      if_ind (λ (r : Option ChargePointState × System sv). SameCounter s r.1) sv.has_database
        (loaded_charge_point doc id s) (unknown_charge_point id s)
        (loaded_charge_point_counter doc id s) (unknown_charge_point_counter id s)

  -- Looking for a charge point leaves the counter alone.
  pub get_charge_point_counter :
      (id : String) (s : System sv) → SameCounter s (get_charge_point id s).1
  unfolding get_charge_point
  get_charge_point_counter id s = known_charge_point_counter (get id s.charge_points) id s
