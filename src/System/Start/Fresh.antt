-- ===== src/System/Start/Fresh.antt =====
-- What `OnStartTransaction` does on a charge point and a connector that are in memory.
use evsys.Common.{
  Bool, String, ap, arith, get, get-put_self, inl, inr, int64, int_has_eq, nat_has_eq, pos, refl,
  some, string_has_eq, subst, ℕ, ℤ, ◌+ℤ◌, ◌∙◌, ◌≡◌, ◌⊎◌,
}
use evsys.Entity.{ChargePoint, Connector, Transaction, UserTag}
use evsys.System.Listen.{check_listen_transaction}
use evsys.System.Lookup.{get_user_tag, released, store_connector}
use evsys.System.Lookup.Known.{
  InMemory, get-save, get-set_connector, get_charge_point_known, get_connector_known,
  get_user_tag_frame, listen_frame,
}
use evsys.System.Start.{
  StartTransactionResponse, answer_start, authorization_accepted, begin, begin_after_stale, held,
  new_transaction, on_start_transaction, stale, start_at, store_transaction, vacant,
}
use evsys.System.State.{
  ChargePointState, Services, StartTransactionRequest, System, register_transaction, save,
  set_connector, unregister_transaction,
}

-- A session with the id `id` is running on the connector: the charge point counts it among its
-- transactions, and the connector holds it with no limit yet.
pub record Holds {sv : Services} (cp : String) (key id : ℤ) (s : System sv) : Type 0 where
  pub state : ChargePointState
  pub connector : Connector
  pub present : get cp s.charge_points ≡ some state
  pub connected : get key state.connectors ≡ some connector
  pub pointing : connector.current_transaction_id ≡ id
  pub unlimited : connector.current_power_limit ≡ pos 0
  pub registered : get id state.transactions ≡ some id

module _ {sv : Services} where
  pub start_at_known :
      (cp : String) (req : StartTransactionRequest) (now : ℕ) (s : System sv)
      {st : ChargePointState} {c : Connector}
      → InMemory cp req.connector_id st c s
      → start_at cp req now st s ≡ answer_start (held c s) cp req now c st s
  unfolding start_at
  start_at_known cp req now s {st = st} m =
      ground (arith, get_connector_known req.connector_id st s m.connected)

  pub store_transaction_frame :
      (t : Transaction) (tag : UserTag) (c : Connector) (s : System sv)
      → (store_transaction t tag c s).charge_points ≡ s.charge_points
  unfolding store_transaction
  store_transaction_frame t tag c s = ground arith

  pub begin-Holds :
      (cp : String) (req : StartTransactionRequest) (now : ℕ) (c : Connector)
      (st : ChargePointState) (s : System sv)
      → st.model.id ≡ cp
      → Holds cp req.connector_id
          (begin cp req now c st s).0.transaction_id
          (begin cp req now c st s).2
  unfolding begin
  begin-Holds cp req now c st s h =
      let (tag, s1) = get_user_tag req.id_tag now s in
      let t = new_transaction cp req tag now s1.next_transaction_id in
      let c' = record c { current_transaction_id = t.id; current_power_limit = pos 0 } in
      let st' = register_transaction t.id (set_connector req.connector_id c' st) in
      let s2 = record s1 { next_transaction_id = int64 (s1.next_transaction_id +ℤ pos 1) } in
      record {
        state = st';
        connector = c';
        present = rw (store_transaction_frame t tag c' (save st' s2)) (get-save st' s2 h);
        connected = get-set_connector req.connector_id c' st;
        pointing = refl;
        unlimited = refl;
        registered = get-put_self t.id t.id st.transactions;
      }

  store_transaction_next :
      (t : Transaction) (tag : UserTag) (c : Connector) (s : System sv)
      → (store_transaction t tag c s).next_transaction_id ≡ s.next_transaction_id
  unfolding store_transaction
  store_transaction_next t tag c s = ground arith

  pub begin_next :
      (cp : String) (req : StartTransactionRequest) (now : ℕ) (c : Connector)
      (st : ChargePointState) (s : System sv)
      → let (reply, c', s') = begin cp req now c st s in
        (reply.status ≡ authorization_accepted)
        × (reply.transaction_id ≡ s.next_transaction_id)
        × (c'.charge_point_id ≡ c.charge_point_id)
        × (s'.next_transaction_id ≡ int64 (s.next_transaction_id +ℤ pos 1))
  unfolding begin
  begin_next cp req now c st s = (
    refl,
    get_user_tag_frame req.id_tag now s,
    refl,
    simp store_transaction_next (rw get_user_tag_frame),
  )

  -- The deferred call changes only which connectors are asked for meter values.
  Holds-check_listen :
      {cp : String} {key id : ℤ} {s : System sv} (c : Connector) (o : Bool)
      → Holds cp key id s
      → c.charge_point_id ≡ cp
      → Holds cp key id (check_listen_transaction c o s)
  Holds-check_listen {s = s} c o h owned =
      rw (listen_frame c o s {st = h.state} (rw owned h.present)) (record {
        state = h.state;
        connector = h.connector;
        present = h.present;
        connected = h.connected;
        pointing = h.pointing;
        unlimited = h.unlimited;
        registered = h.registered;
      })

  next_of_listen :
      {cp : String} {key id : ℤ} {s : System sv} (c : Connector) (o : Bool)
      → Holds cp key id s
      → c.charge_point_id ≡ cp
      → (check_listen_transaction c o s).next_transaction_id ≡ s.next_transaction_id
  next_of_listen {s = s} c o h owned = rw (listen_frame c o s {st = h.state} (rw owned h.present))

  pub store_of_listen :
      {cp : String} {key id : ℤ} {s : System sv} (c : Connector) (o : Bool)
      → Holds cp key id s
      → c.charge_point_id ≡ cp
      → (check_listen_transaction c o s).store ≡ s.store
  store_of_listen {s = s} c o h owned = rw (listen_frame c o s {st = h.state} (rw owned h.present))

  pub on_start_known :
      (cp : String) (req : StartTransactionRequest) (now : ℕ) (s : System sv)
      {st : ChargePointState} {c : Connector}
      → InMemory cp req.connector_id st c s
      → let (reply, c', s') = answer_start (held c s) cp req now c st s in
        on_start_transaction cp req now s
        ≡ (reply, check_listen_transaction c' st.model.is_online s')
  unfolding on_start_transaction
  on_start_known cp req now s {st = st} m =
      rw (get_charge_point_known cp s m.present) (rw (start_at_known cp req now s m))

  pub begin_after_stale_lem :
      (cp : String) (req : StartTransactionRequest) (now : ℕ) (c : Connector)
      (st : ChargePointState) (s : System sv)
      → (st' : ChargePointState) × (s' : System sv) × (begin_after_stale cp req now c st s
          ≡ begin cp req now (released c) st' s')
        × (st'.model ≡ st.model)
        × (s'.next_transaction_id ≡ s.next_transaction_id)
        × (s'.store ≡ (sv.update_connector s.store (released c)).0)
  unfolding begin_after_stale
  begin_after_stale_lem cp req now c st s =
      let st' =
        set_connector req.connector_id (released c)
          (unregister_transaction c.current_transaction_id st) in
      (st', store_connector (released c) (save st' s), refl, refl, refl, refl)

  abbrev pub Starts :
      String → StartTransactionRequest → StartTransactionResponse × System sv → ℤ → Type 0
  Starts cp req r id =
      (r.0.status ≡ authorization_accepted)
      × (r.0.transaction_id ≡ id)
      × (r.1.next_transaction_id ≡ int64 (id +ℤ pos 1))
      × Holds cp req.connector_id id r.1

  begin-Starts :
      (cp : String) (req : StartTransactionRequest) (now : ℕ) (c : Connector) (o : Bool)
      (st : ChargePointState) (s : System sv)
      → st.model.id ≡ cp
      → c.charge_point_id ≡ cp
      → let (reply, c', s') = begin cp req now c st s in
        Starts cp req (reply, check_listen_transaction c' o s') s.next_transaction_id
  begin-Starts cp req now c o st s named owned =
      let (reply, c', s') = begin cp req now c st s in
      let (ok, same, own, next) = begin_next cp req now c st s in
      let h = begin-Holds cp req now c st s named in
      (
        ok,
        same,
        next_of_listen c' o h (own ∙ owned) ∙ next,
        subst (λ i. Holds cp req.connector_id i (check_listen_transaction c' o s')) same
            (Holds-check_listen c' o h (own ∙ owned)),
      )

  module _ (cp : String) (req : StartTransactionRequest) (now : ℕ) (c : Connector)
      (st : ChargePointState) (s : System sv) where
    pub answer_start_vacant : answer_start vacant cp req now c st s ≡ begin cp req now c st s
    unfolding answer_start
    answer_start_vacant = refl

    pub answer_start_stale :
        answer_start stale cp req now c st s ≡ begin_after_stale cp req now c st s
    unfolding answer_start
    answer_start_stale = refl

  -- A connector in memory with no open transaction of its own starts a session: the reply is Accepted with
  -- the next free transaction id, the id counter goes up by one, and the session is held.
  pub start_on_free_connector :
      (cp : String) (req : StartTransactionRequest) (now : ℕ) (s : System sv)
      {st : ChargePointState} {c : Connector}
      → InMemory cp req.connector_id st c s
      → (held c s ≡ vacant) ⊎ (held c s ≡ stale)
      → Starts cp req (on_start_transaction cp req now s) s.next_transaction_id
  start_on_free_connector cp req now s {st = st} {c = c} m (inl e) =
      rw (on_start_known cp req now s m) (
        rw (e, answer_start_vacant)
          (begin-Starts cp req now c st.model.is_online st s m.named m.owned))
  start_on_free_connector cp req now s {st = st} {c = c} m (inr e) =
      let o = st.model.is_online in
      let (st', s', same, model, next, _) = begin_after_stale_lem cp req now c st s in
      let named = ap (λ (m : ChargePoint). m.id) model ∙ m.named in
      rw (on_start_known cp req now s m) (
        rw (e, answer_start_stale, same)
          (subst (Starts cp req _) next
            (begin-Starts cp req now (released c) o st' s' named (unfold released in m.owned))))
