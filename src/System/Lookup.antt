-- ===== src/System/Lookup.antt =====
-- How the handler finds charge points, connectors and user tags, and what it creates where there
-- are none: `getChargePoint`, `addChargePoint`, `initializeChargePointState`,
-- `releaseFinishedTransaction`, `getConnector` and `getUserTag` of server/system_handler.go.
use Prim.Native.String.{◌++◌ as str_append}
pub mod Known
pub mod Documents
pub mod Counters
use evsys.Common.{
  Bool, List, Option, String, [], false, get, if◌then◌else◌, int_has_eq, nat_has_eq, none, pos,
  some, string_has_eq, true, ℕ, ℤ, ◌&&◌, ◌==◌, ◌∷◌,
}
use evsys.Entity.{ChargePoint, Connector, Transaction, UserTag, new_connector, no_transaction}
use evsys.Entity.IdTag.{split_id_tag}
use evsys.System.State.{
  ChargePointState, Lookup, Services, System, failed, found, not_found, register_transaction, save,
  set_connector,
}
use evsys.V16.Status.{available, get_error_code, get_status, no_error, unavailable}

unfoldable pub new_charge_point_state : ChargePoint → ChargePointState
new_charge_point_state chp = record {
  status = "";
  diagnostics_status = "";
  firmware_status = "";
  connectors = [];
  transactions = [];
  error_code = "";
  model = chp;
  trigger_message = chp.trigger_message;
}

-- The state of a charge point before its connectors are added.
unfoldable pub bare_state : ChargePoint → ChargePointState
unfolding new_charge_point_state get_status get_error_code
bare_state chp = record (new_charge_point_state chp) {
  status = if chp.is_enabled then get_status chp.status else unavailable;
  error_code = get_error_code chp.error_code;
}

unfoldable pub new_charge_point : String → ChargePoint
new_charge_point id = record {
  id = id;
  location_id = "";
  is_enabled = true;
  title = str_append "(new) " id;
  model = "";
  serial_number = "";
  vendor = "";
  firmware_version = "";
  local_auth_version = pos 0;
  smart_charging = false;
  trigger_message = false;
  status = available;
  status_time = 0;
  info = "";
  access_type = "private";
  access_level = pos 10;
  error_code = no_error;
  is_online = false;
  event_time = 0;
  connectors = [];
  protocol_version = "";
  device_model = [];
}

-- A connector that holds no transaction and no limit.
unfoldable pub released : Connector → Connector
released c = record c { current_transaction_id = no_transaction; current_power_limit = pos 0 }

new_user_tag : String → UserTag
unfolding split_id_tag
new_user_tag tag =
    let (source, id) = split_id_tag tag in
    record {
      username = "";
      user_id = "";
      id_tag = id;
      source = source;
      is_enabled = false;
      local = false;
      note = "";
      date_registered = 0;
      last_seen = 0;
    }

-- Is the lookup's answer a transaction that is finished?
unfoldable pub is_finished_answer : Lookup Transaction → Bool
is_finished_answer (found t) = t.is_finished
is_finished_answer not_found = false
is_finished_answer failed = false

module _ {sv : Services} where
  unfoldable pub holds_finished : Connector → System sv → Bool
  unfolding is_finished_answer
  holds_finished c s =
      sv.has_database && is_finished_answer (sv.get_transaction s.store c.current_transaction_id)

  -- h.database.UpdateConnector(connector), whose error is only logged
  unfoldable pub store_connector : Connector → System sv → System sv
  store_connector c s = record s { store = (sv.update_connector s.store c).0 }

  init_connector : Connector → ChargePointState → System sv → ChargePointState × System sv
  unfolding holds_finished store_connector released set_connector register_transaction
  init_connector c st s =
      let st1 = set_connector c.id c st in
      if c.current_transaction_id == no_transaction
      then (st1, s)
      else if holds_finished c s
      then (set_connector c.id (released c) st1, store_connector (released c) s)
      else (register_transaction c.current_transaction_id st1, s)

  unfoldable pub init_connectors :
      List Connector → ChargePointState → System sv → ChargePointState × System sv
  unfolding init_connector
  init_connectors [] st s = (st, s)
  init_connectors (c ∷ cs) st s = let (st', s') = init_connector c st s in init_connectors cs st' s'

  unfoldable pub initialize_charge_point_state :
      ChargePoint → System sv → ChargePointState × System sv
  unfolding bare_state init_connectors save
  initialize_charge_point_state chp s =
      let (st, s') = init_connectors chp.connectors (bare_state chp) s in (st, save st s')

  unfoldable pub add_charge_point : String → System sv → Option ChargePointState × System sv
  unfolding new_charge_point initialize_charge_point_state
  add_charge_point id s =
      if id == ""
      then (none, s)
      else let chp = new_charge_point id in
        let s' =
          if sv.has_database
          then record s { store = (sv.add_charge_point_doc s.store chp).0 }
          else s in
        let (st, s'') = initialize_charge_point_state chp s' in (some st, s'')

  unknown_charge_point : String → System sv → Option ChargePointState × System sv
  unfolding add_charge_point
  unknown_charge_point id s = if sv.accept_points then add_charge_point id s else (none, s)

  loaded_charge_point :
      Option ChargePoint → String → System sv → Option ChargePointState × System sv
  unfolding initialize_charge_point_state unknown_charge_point
  loaded_charge_point (some chp) id s =
      let (st, s') = initialize_charge_point_state chp s in (some st, s')
  loaded_charge_point none id s = unknown_charge_point id s

  known_charge_point :
      Option ChargePointState → String → System sv → Option ChargePointState × System sv
  unfolding loaded_charge_point unknown_charge_point
  known_charge_point (some st) id s = (some st, s)
  known_charge_point none id s =
      if sv.has_database
      then loaded_charge_point (sv.get_charge_point_doc s.store id) id s
      else unknown_charge_point id s

  -- The state of a charge point, loaded or created where it is not in memory.
  unfoldable pub get_charge_point : String → System sv → Option ChargePointState × System sv
  unfolding known_charge_point
  get_charge_point id s = known_charge_point (get id s.charge_points) id s

  created_connector : ℤ → ChargePointState → System sv → Connector × ChargePointState × System sv
  unfolding new_connector set_connector save
  created_connector id st s =
      let c = new_connector id st.model.id in
      let st' = set_connector id c st in
      let s' =
        if sv.has_database then record s { store = (sv.add_connector_doc s.store c).0 } else s in
      (c, st', save st' s')

  loaded_connector :
      Option Connector → ℤ → ChargePointState → System sv → Connector × ChargePointState × System sv
  unfolding created_connector set_connector save
  loaded_connector (some c) id st s = let st' = set_connector id c st in (c, st', save st' s)
  loaded_connector none id st s = created_connector id st s

  known_connector :
      Option Connector → ℤ → ChargePointState → System sv → Connector × ChargePointState × System sv
  unfolding loaded_connector created_connector
  known_connector (some c) id st s = (c, st, s)
  known_connector none id st s =
      if sv.has_database
      then loaded_connector (sv.get_connector_doc s.store id st.model.id) id st s
      else created_connector id st s

  -- The connector of a charge point, loaded or created where it is not in memory.
  unfoldable pub get_connector :
      ℤ → ChargePointState → System sv → Connector × ChargePointState × System sv
  unfolding known_connector
  get_connector id st s = known_connector (get id st.connectors) id st s

  saved_user_tag : Option UserTag → UserTag → ℕ → System sv → UserTag × System sv
  saved_user_tag (some tag) fresh now s =
      (tag, record s { store = (sv.update_tag_last_seen s.store tag).0 })
  saved_user_tag none fresh now s =
      let tag = record fresh { is_enabled = sv.accept_tags; date_registered = now } in
      let added = (sv.add_user_tag s.store tag).0 in
      (tag, record s { store = (sv.update_tag_last_seen added tag).0 })

  -- The user tag of a card, registered where it is not known.
  unfoldable pub get_user_tag : String → ℕ → System sv → UserTag × System sv
  unfolding new_user_tag saved_user_tag
  get_user_tag id_tag now s =
      let tag = new_user_tag id_tag in
      if sv.has_database
      then saved_user_tag (sv.get_user_tag_doc s.store tag.id_tag) tag now s
      else (record tag { is_enabled = sv.accept_tags }, s)
