-- ===== src/System/Lookup/Documents.antt =====
-- The lookups write nothing to the transactions in the database.
use evsys.Common.{
  List, Option, String, [], arith, get, if_ind, if◌then◌else◌, int_has_eq, nat_has_eq, none, refl,
  some, string_has_eq, ℕ, ℤ, ◌==◌, ◌∙◌, ◌∷◌, ◌≡◌,
}
use evsys.Entity.{ChargePoint, Connector, UserTag, new_connector}
use evsys.System.Laws.{Laws}
use evsys.System.Lookup.{
  add_charge_point, bare_state, created_connector, get_charge_point, get_connector, get_user_tag,
  init_connector, init_connectors, initialize_charge_point_state, known_charge_point,
  known_connector, loaded_charge_point, loaded_connector, new_charge_point, new_user_tag, released,
  saved_user_tag, store_connector, unknown_charge_point,
}
use evsys.System.State.{ChargePointState, Services, System, save}

module _ {sv : Services} where
  -- Two states with the same transaction documents.
  abbrev pub SameDocuments : System sv → System sv → Type 0
  SameDocuments s s' = (j : ℤ) → sv.get_transaction s'.store j ≡ sv.get_transaction s.store j

module _ {sv : Services} (laws : Laws sv) where
  saved_user_tag_keeps :
      (o : Option UserTag) (tag : UserTag) (now : ℕ) (s : System sv) (id : ℤ)
      → sv.get_transaction (saved_user_tag o tag now s).1.store id ≡ sv.get_transaction s.store id
  unfolding saved_user_tag
  saved_user_tag_keeps (some t) tag now s id = laws.after_update_tag_last_seen s.store t id
  saved_user_tag_keeps none tag now s id =
      rw (laws.after_update_tag_last_seen, laws.after_add_user_tag)

  pub get_user_tag_keeps :
      (tag : String) (now : ℕ) (s : System sv) (id : ℤ)
      → sv.get_transaction (get_user_tag tag now s).1.store id ≡ sv.get_transaction s.store id
  unfolding get_user_tag
  get_user_tag_keeps tag now s id =
      let fresh = new_user_tag tag in
      let saved = saved_user_tag (sv.get_user_tag_doc s.store fresh.id_tag) fresh now s in
      if_ind
        (λ (p : UserTag × System sv).
          sv.get_transaction p.1.store id ≡ sv.get_transaction s.store id)
        sv.has_database saved (record fresh { is_enabled = sv.accept_tags }, s)
        (saved_user_tag_keeps (sv.get_user_tag_doc s.store fresh.id_tag) fresh now s id) refl

  init_connector_keeps :
      (c : Connector) (st : ChargePointState) (s : System sv)
      → SameDocuments s (init_connector c st s).1
  unfolding init_connector store_connector
  init_connector_keeps c st s j = ground (arith, laws.after_update_connector s.store (released c) j)

  init_connectors_keeps :
      (cs : List Connector) (st : ChargePointState) (s : System sv)
      → SameDocuments s (init_connectors cs st s).1
  unfolding init_connectors
  init_connectors_keeps [] st s j = refl
  init_connectors_keeps (c ∷ cs) st s j =
      let (st', s') = init_connector c st s in
      init_connectors_keeps cs st' s' j ∙ init_connector_keeps c st s j

  pub initialize_keeps :
      (chp : ChargePoint) (s : System sv) → SameDocuments s (initialize_charge_point_state chp s).1
  unfolding initialize_charge_point_state save
  initialize_keeps chp s j = init_connectors_keeps chp.connectors (bare_state chp) s j

  added_charge_point : ChargePoint → System sv → System sv
  added_charge_point chp s =
      if sv.has_database then record s { store = (sv.add_charge_point_doc s.store chp).0 } else s

  added_charge_point_keeps :
      (chp : ChargePoint) (s : System sv) → SameDocuments s (added_charge_point chp s)
  unfolding added_charge_point
  added_charge_point_keeps chp s j = ground (arith, laws.after_add_charge_point s.store chp j)

  add_charge_point_keeps : (id : String) (s : System sv) → SameDocuments s (add_charge_point id s).1
  unfolding add_charge_point added_charge_point
  add_charge_point_keeps id s j =
      let chp = new_charge_point id in
      if_ind
        (λ (r : Option ChargePointState × System sv).
          sv.get_transaction r.1.store j ≡ sv.get_transaction s.store j)
        (id == "") (none, s)
        (let (st, s'') = initialize_charge_point_state chp (added_charge_point chp s) in
          (some st, s''))
        refl (initialize_keeps chp (added_charge_point chp s) j ∙ added_charge_point_keeps chp s j)

  unknown_charge_point_keeps :
      (id : String) (s : System sv) → SameDocuments s (unknown_charge_point id s).1
  unfolding unknown_charge_point
  unknown_charge_point_keeps id s j = ground (arith, add_charge_point_keeps id s j)

  loaded_charge_point_keeps :
      (o : Option ChargePoint) (id : String) (s : System sv)
      → SameDocuments s (loaded_charge_point o id s).1
  unfolding loaded_charge_point
  loaded_charge_point_keeps (some chp) id s j = initialize_keeps chp s j
  loaded_charge_point_keeps none id s j = unknown_charge_point_keeps id s j

  known_charge_point_keeps :
      (o : Option ChargePointState) (id : String) (s : System sv)
      → SameDocuments s (known_charge_point o id s).1
  unfolding known_charge_point
  known_charge_point_keeps (some st) id s j = refl
  known_charge_point_keeps none id s j =
      let doc = sv.get_charge_point_doc s.store id in
      if_ind
        (λ (r : Option ChargePointState × System sv).
          sv.get_transaction r.1.store j ≡ sv.get_transaction s.store j)
        sv.has_database (loaded_charge_point doc id s) (unknown_charge_point id s)
        (loaded_charge_point_keeps doc id s j) (unknown_charge_point_keeps id s j)

  -- Looking for a charge point changes no transaction document, even where it is created.
  pub get_charge_point_keeps :
      (id : String) (s : System sv) → SameDocuments s (get_charge_point id s).1
  unfolding get_charge_point
  get_charge_point_keeps id s j = known_charge_point_keeps (get id s.charge_points) id s j

  created_connector_keeps :
      (id : ℤ) (st : ChargePointState) (s : System sv)
      → SameDocuments s (created_connector id st s).2
  unfolding created_connector save
  created_connector_keeps id st s j =
      ground (arith, laws.after_add_connector s.store (new_connector id st.model.id) j)

  known_connector_keeps :
      (o : Option Connector) (id : ℤ) (st : ChargePointState) (s : System sv)
      → SameDocuments s (known_connector o id st s).2
  unfolding known_connector loaded_connector save
  known_connector_keeps (some c) id st s j = refl
  known_connector_keeps none id st s j = ground (arith, created_connector_keeps id st s j)

  pub get_connector_keeps :
      (id : ℤ) (st : ChargePointState) (s : System sv) → SameDocuments s (get_connector id st s).2
  unfolding get_connector
  get_connector_keeps id st s j = known_connector_keeps (get id st.connectors) id st s j
