-- ===== src/System/Lookup/Known.antt =====
-- What the lookups of System/Lookup.antt return where the thing is in memory, and that they find it
-- there afterwards.
use evsys.Common.{
  Bool, Bool-cases, Option, String, arith, get, get-put_self, inl, inr, int_has_eq, nat_has_eq,
  none, refl, some, string_has_eq, ℕ, ℤ, ◌≡◌,
}
use evsys.Entity.{Connector, new_connector}
use evsys.System.Listen.{check_listen_transaction}
use evsys.System.Lookup.{
  created_connector, get_charge_point, get_connector, get_user_tag, known_charge_point,
  known_connector, loaded_connector,
}
use evsys.System.State.{ChargePointState, Services, System, save, set_connector}

-- The charge point `cp` and its connector `key` are in memory, filed under their own ids.
pub record InMemory {sv : Services} (cp : String) (key : ℤ) (st : ChargePointState) (c : Connector)
    (s : System sv) : Type 0 where
  pub present : get cp s.charge_points ≡ some st
  pub named : st.model.id ≡ cp
  pub connected : get key st.connectors ≡ some c
  pub owned : c.charge_point_id ≡ cp

pub get-set_connector :
    (key : ℤ) (c : Connector) (st : ChargePointState)
    → get key (set_connector key c st).connectors ≡ some c
unfolding set_connector
get-set_connector key c st = get-put_self key c st.connectors

module _ {sv : Services} where
  -- A charge point in memory is returned, and nothing changes.
  pub get_charge_point_known :
      (id : String) (s : System sv) {st : ChargePointState}
      → get id s.charge_points ≡ some st
      → get_charge_point id s ≡ (some st, s)
  unfolding get_charge_point
  get_charge_point_known id s h = rw (h, known_charge_point)

  pub get_connector_known :
      (id : ℤ) (st : ChargePointState) (s : System sv) {c : Connector}
      → get id st.connectors ≡ some c
      → get_connector id st s ≡ (c, st, s)
  unfolding get_connector
  get_connector_known id st s h = rw (h, known_connector)

  pub get-save :
      {cp : String} (st : ChargePointState) (s : System sv)
      → st.model.id ≡ cp
      → get cp (save st s).charge_points ≡ some st
  unfolding save
  get-save st s h = rw (← h) (get-put_self st.model.id st s.charge_points)

  created_connector_holds :
      (id : ℤ) (st : ChargePointState) (s : System sv)
      → get id (created_connector id st s).1.connectors ≡ some (created_connector id st s).0
  unfolding created_connector
  created_connector_holds id st s = get-set_connector id (new_connector id st.model.id) st

  loaded_connector_holds :
      (o : Option Connector) (id : ℤ) (st : ChargePointState) (s : System sv)
      → get id (loaded_connector o id st s).1.connectors ≡ some (loaded_connector o id st s).0
  unfolding loaded_connector
  loaded_connector_holds (some c) id st s = get-set_connector id c st
  loaded_connector_holds none id st s = created_connector_holds id st s

  known_connector_holds :
      (id : ℤ) (st : ChargePointState) (s : System sv) (o : Option Connector)
      → get id st.connectors ≡ o
      → get id (known_connector o id st s).1.connectors ≡ some (known_connector o id st s).0
  unfolding known_connector
  known_connector_holds id st s (some c) h = h
  known_connector_holds id st s none h = elim (Bool-cases sv.has_database) [
    | inl set ↦
        rw set (loaded_connector_holds (sv.get_connector_doc s.store id st.model.id) id st s)
    | inr unset ↦ rw unset (created_connector_holds id st s)
  ]

  -- Whatever connector the handler works on, it is the one that its charge point holds.
  pub get_connector_holds :
      (id : ℤ) (st : ChargePointState) (s : System sv)
      → get id (get_connector id st s).1.connectors ≡ some (get_connector id st s).0
  unfolding get_connector
  get_connector_holds id st s = known_connector_holds id st s (get id st.connectors) refl

  pub listen_frame :
      (c : Connector) (o : Bool) (s : System sv) {st : ChargePointState}
      → get c.charge_point_id s.charge_points ≡ some st
      → check_listen_transaction c o s
        ≡ record s { trigger = (check_listen_transaction c o s).trigger }
  unfolding check_listen_transaction
  listen_frame c o s h = ground (arith, get_charge_point_known c.charge_point_id s h)

  pub get_user_tag_frame :
      (tag : String) (now : ℕ) (s : System sv)
      → (get_user_tag tag now s).1.next_transaction_id ≡ s.next_transaction_id
  unfolding get_user_tag
  get_user_tag_frame tag now s = ground arith

  pub get_user_tag_points :
      (tag : String) (now : ℕ) (s : System sv)
      → (get_user_tag tag now s).1.charge_points ≡ s.charge_points
  unfolding get_user_tag
  get_user_tag_points tag now s = ground arith
