-- ===== src/System/Laws.antt =====
-- What the theorems about stored documents assume of the services: the documented behaviour of the
-- database's operations, and that billing writes only the figures that it computes. `internal.Database`
-- is implemented over MongoDB in internal/mongo.go: a lookup finds the one document with the id, an
-- insert adds a document, an update by id writes that document's fields and no other's.
use evsys.Common.{Bool, String, true, ℤ, ◌≡◌, ◌≢◌}
use evsys.Entity.{ChargePoint, Connector, Transaction, TransactionMeter, UserTag}
use evsys.System.State.{Services, StopTransactionRequest, found, not_found}

pub record Laws (sv : Services) : Type 0 where
  -- Writes to the other collections leave the transactions alone.
  pub after_update_connector :
      (db : sv.Store) (c : Connector) (id : ℤ)
      → sv.get_transaction (sv.update_connector db c).0 id ≡ sv.get_transaction db id
  pub after_update_charge_point :
      (db : sv.Store) (p : ChargePoint) (id : ℤ)
      → sv.get_transaction (sv.update_charge_point db p).0 id ≡ sv.get_transaction db id
  pub after_update_charge_point_status :
      (db : sv.Store) (p : ChargePoint) (id : ℤ)
      → sv.get_transaction (sv.update_charge_point_status db p).0 id ≡ sv.get_transaction db id
  pub after_update_online_status :
      (db : sv.Store) (cp : String) (o : Bool) (id : ℤ)
      → sv.get_transaction (sv.update_online_status db cp o).0 id ≡ sv.get_transaction db id
  pub after_update_tag :
      (db : sv.Store) (u : UserTag) (id : ℤ)
      → sv.get_transaction (sv.update_tag db u).0 id ≡ sv.get_transaction db id
  pub after_add_charge_point :
      (db : sv.Store) (p : ChargePoint) (id : ℤ)
      → sv.get_transaction (sv.add_charge_point_doc db p).0 id ≡ sv.get_transaction db id
  pub after_add_connector :
      (db : sv.Store) (c : Connector) (id : ℤ)
      → sv.get_transaction (sv.add_connector_doc db c).0 id ≡ sv.get_transaction db id
  pub after_add_user_tag :
      (db : sv.Store) (u : UserTag) (id : ℤ)
      → sv.get_transaction (sv.add_user_tag db u).0 id ≡ sv.get_transaction db id
  pub after_update_tag_last_seen :
      (db : sv.Store) (u : UserTag) (id : ℤ)
      → sv.get_transaction (sv.update_tag_last_seen db u).0 id ≡ sv.get_transaction db id
  pub after_save_stop :
      (db : sv.Store) (r : StopTransactionRequest) (id : ℤ)
      → sv.get_transaction (sv.save_stop_transaction_request db r).0 id ≡ sv.get_transaction db id
  pub after_add_meter_value :
      (db : sv.Store) (m : TransactionMeter) (id : ℤ)
      → sv.get_transaction (sv.add_transaction_meter_value db m).0 id ≡ sv.get_transaction db id
  pub after_delete_meter_values :
      (db : sv.Store) (t id : ℤ)
      → sv.get_transaction (sv.delete_transaction_meter_values db t).0 id ≡ sv.get_transaction db id
  -- A new document is found under its id, and the others stay.
  pub added :
      (db : sv.Store) (t : Transaction)
      → sv.get_transaction db t.id ≡ not_found
      → (sv.add_transaction db t).1 ≡ true
      → sv.get_transaction (sv.add_transaction db t).0 t.id ≡ found t
  pub added_other :
      (db : sv.Store) (t : Transaction) (id : ℤ)
      → t.id ≢ id
      → sv.get_transaction (sv.add_transaction db t).0 id ≡ sv.get_transaction db id
  -- A document that is there is replaced, and the others stay.
  pub updated :
      (db : sv.Store) (t : Transaction) {old : Transaction}
      → sv.get_transaction db t.id ≡ found old
      → (sv.update_transaction db t).1 ≡ true
      → sv.get_transaction (sv.update_transaction db t).0 t.id ≡ found t
  pub updated_other :
      (db : sv.Store) (t : Transaction) (id : ℤ)
      → t.id ≢ id
      → sv.get_transaction (sv.update_transaction db t).0 id ≡ sv.get_transaction db id
  -- A transaction is found under its own id.
  pub own_id :
      (db : sv.Store) (id : ℤ) (t : Transaction) → sv.get_transaction db id ≡ found t → t.id ≡ id
  -- billing/affleck.go sets the plan of a new transaction, and the amount of a finished one.
  pub billing_start :
      (t : Transaction)
      → (sv.on_billing_start t).0 ≡ record t { plan = (sv.on_billing_start t).0.plan }
  pub billing_finished :
      (t : Transaction)
      → (sv.on_billing_finished t).0
        ≡ record t { payment_amount = (sv.on_billing_finished t).0.payment_amount }
