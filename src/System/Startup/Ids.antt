-- ===== src/System/Startup/Ids.antt =====
-- The ids of the sessions after a start: `OnStart` and `OnStartTransaction` of
-- server/system_handler.go.
-- What internal/mongo.go does: a reset writes to another collection, and the last transaction is the one
-- with the highest id.
use evsys.Common.{
  Bool, Dict, IsInt64, List, Option, String, [], ap, arith, if_true, int64, int64_of_IsInt64,
  negsuc, pos, refl, some, sym, true, ℤ, ◌+ℤ◌, ◌<ℤ◌, ◌∙◌, ◌∷◌, ◌≡◌, ◌≤ℤ◌,
}
use evsys.Entity.{ChargePoint, Connector, Transaction}
use evsys.System.Laws.{Laws}
use evsys.System.Listen.{check_listen_transaction}
use evsys.System.Listen.Frames.{SameIds, SameIds-trans, check_listen-SameIds}
use evsys.System.Lookup.{initialize_charge_point_state}
use evsys.System.Lookup.Counters.{initialize_counter}
use evsys.System.Lookup.Documents.{SameDocuments, initialize_keeps}
use evsys.System.Startup.{
  StartReads, add_last_meters, continue_ids, listen_all, listen_points, load_charge_points,
  load_from_database, loaded_from, meters_of_list, on_start, started_from, with_meters,
}
use evsys.System.State.{ChargePointState, Services, System, found}

pub record ReadsLaws {sv : Services} (reads : StartReads sv) : Type 0 where
  pub after_reset :
      (db : sv.Store) (id : ℤ)
      → sv.get_transaction (reads.reset_online_status db).0 id ≡ sv.get_transaction db id
  pub last_is_highest :
      (db : sv.Store) {last : Transaction} (id : ℤ) {t : Transaction}
      → reads.get_last_transaction db ≡ some last
      → sv.get_transaction db id ≡ found t
      → id ≤ℤ last.id

module _ {sv : Services} (laws : Laws sv) where
  load_charge_points_keeps :
      (ps : List ChargePoint) (s : System sv) → SameIds s (load_charge_points ps s)
  unfolding load_charge_points
  load_charge_points_keeps [] s = (λ j. refl, refl)
  load_charge_points_keeps (p ∷ ps) s =
      let s' = (initialize_charge_point_state p s).1 in
      SameIds-trans s s' (load_charge_points ps s')
        (initialize_keeps laws p s, initialize_counter p s) (load_charge_points_keeps ps s')

  listen_all_keeps :
      (cs : Dict ℤ Connector) (o : Bool) (s : System sv) → SameIds s (listen_all cs o s)
  unfolding listen_all
  listen_all_keeps [] o s = (λ j. refl, refl)
  listen_all_keeps ((k, c) ∷ cs) o s =
      let s' = check_listen_transaction c o s in
      SameIds-trans s s' (listen_all cs o s') (check_listen-SameIds laws c o s)
        (listen_all_keeps cs o s')

  listen_points_keeps :
      (d : Dict String ChargePointState) (s : System sv) → SameIds s (listen_points d s)
  unfolding listen_points
  listen_points_keeps [] s = (λ j. refl, refl)
  listen_points_keeps ((id, st) ∷ d) s =
      let s' = listen_all st.connectors st.model.is_online s in
      SameIds-trans s s' (listen_points d s') (listen_all_keeps st.connectors st.model.is_online s)
        (listen_points_keeps d s')

bumped : (id last : ℤ) → id ≤ℤ last → id <ℤ (last +ℤ pos 1)
unfolding ◌+ℤ◌
bumped id (pos n) h = ground arith
bumped id (negsuc n) h = ground arith

-- The state that `OnStart` reads the last transaction from.
abbrev pub after_points : {sv : Services} → StartReads sv → List ChargePoint → System sv → System sv
after_points reads ps s =
    load_charge_points ps (record s { store = (reads.reset_online_status s.store).0 })

module _ {sv : Services} (laws : Laws sv) (reads : StartReads sv)
    (reads_laws : ReadsLaws reads) where
  after_points_same :
      (ps : List ChargePoint) (s : System sv) → SameDocuments s (after_points reads ps s)
  after_points_same ps s j =
      (load_charge_points_keeps laws ps
          (record s { store = (reads.reset_online_status s.store).0 })).0
        j
      ∙ reads_laws.after_reset s.store j

  loaded_lem :
      (ps : List ChargePoint) (s : System sv) {last : Transaction}
      → sv.has_database ≡ true
      → reads.get_charge_points (reads.reset_online_status s.store).0 ≡ some ps
      → reads.get_last_transaction (after_points reads ps s).store ≡ some last
      → (s' : System sv) × (load_from_database reads s ≡ (true, s'))
        × (s'.store ≡ (after_points reads ps s).store)
        × (s'.next_transaction_id ≡ int64 (last.id +ℤ pos 1))
  unfolding load_from_database loaded_from continue_ids with_meters
  loaded_lem ps s {last = last} set points last_read =
      let s1 = after_points reads ps s in
      let s0 = record s { store = (reads.reset_online_status s.store).0 } in
      let meters = meters_of_list (reads.read_last_meter_values s1.store) in
      (
        record s1 {
          next_transaction_id = int64 (last.id +ℤ pos 1);
          last_meter = add_last_meters meters s1.last_meter;
        },
        if_true (loaded_from reads (reads.get_charge_points s0.store) s0) (true, s) set
            ∙ ap (λ o. loaded_from reads o s0) points
            ∙ ap (λ (l : Option Transaction). (true, with_meters reads (continue_ids l s1)))
                last_read,
        refl,
        refl,
      )

  -- A start that reads the charge points and the last transaction succeeds, and gives the next session the id
  -- after the last one, if that is still an id of 64 bits: every stored transaction has a smaller id,
  -- and none of them is changed.
  pub start_continues_ids :
      (ps : List ChargePoint) (s : System sv) {last : Transaction}
      → sv.has_database ≡ true
      → reads.get_charge_points (reads.reset_online_status s.store).0 ≡ some ps
      → reads.get_last_transaction (after_points reads ps s).store ≡ some last
      → IsInt64 (last.id +ℤ pos 1)
      → (s' : System sv) × (on_start reads true s ≡ (true, s'))
        × (s'.next_transaction_id ≡ last.id +ℤ pos 1)
        × ((id : ℤ) (t : Transaction)
            → sv.get_transaction s'.store id ≡ found t
            → id <ℤ s'.next_transaction_id)
        × SameDocuments s s'
  unfolding on_start started_from
  start_continues_ids ps s {last = last} set points last_read range =
      let (s1, loads, stored, next) = loaded_lem ps s set points last_read in
      let s' = listen_points s1.charge_points s1 in
      let (docs, counter) = listen_points_keeps laws s1.charge_points s1 in
      let next' = counter ∙ next ∙ int64_of_IsInt64 (last.id +ℤ pos 1) range in
      let at_points : (j : ℤ)
          → sv.get_transaction s'.store j ≡ sv.get_transaction (after_points reads ps s).store j =
        λ j. docs j ∙ ap (λ db. sv.get_transaction db j) stored in
      (
        s',
        rw loads refl,
        next',
        λ id t there. rw next' (
            bumped id last.id (
              reads_laws.last_is_highest (after_points reads ps s).store id last_read
                (sym (at_points id) ∙ there))),
        λ j. at_points j ∙ after_points_same ps s j,
      )
