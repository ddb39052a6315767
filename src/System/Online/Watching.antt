-- ===== src/System/Online/Watching.antt =====
-- Which connectors are asked for meter values once their charge point goes offline.
use evsys.Common.{
  All, Dict, Option, String, [], ap, arith, false, get, get-remove, get-remove_self, if_false,
  if_true, if◌then◌else◌, int_has_eq, nat_has_eq, none, not, refl, remove, some, string_has_eq,
  subst, sym, true, ℕ, ℤ, ◌&&◌, ◌∙◌, ◌∷◌, ◌≡◌,
}
use evsys.Entity.{Connector}
use evsys.System.Listen.Offline.{check_offline}
use evsys.System.Lookup.Known.{get-save, get_charge_point_known}
use evsys.System.Online.{
  changed_online, differs, listen_connectors, on_online_status_changed, online_from,
}
use evsys.System.State.{
  ChargePointState, Outcome, Services, System, notify, online_notice, panicked, returned, save,
  status_notice, trigger_unregister,
}

-- The connectors of the charge point `cp`, filed with it.
abbrev pub OwnedBy : String → Dict ℤ Connector → Type 0
OwnedBy cp cs = All (λ (e : ℤ × Connector). e.1.charge_point_id ≡ cp) cs

-- A transaction that is not watched stays so.
remove_keeps : (i j : ℤ) (d : Dict ℤ (String × ℤ)) → get i d ≡ none → get i (remove j d) ≡ none
remove_keeps i j d h = ground (arith, get-remove j i d)

module _ {sv : Services} where
  -- No connector is asked for meter values of its transaction.
  abbrev pub Unwatched : Dict ℤ Connector → System sv → Type 0
  Unwatched cs s = All (λ (e : ℤ × Connector). get e.1.current_transaction_id s.trigger ≡ none) cs

  loop_lem :
      (cs : Dict ℤ Connector) (status : String) (cp : String) (s : System sv)
      {st : ChargePointState}
      → OwnedBy cp cs
      → get cp s.charge_points ≡ some st
      → st.trigger_message ≡ true
      → let s' = listen_connectors cs false status s in
        Unwatched cs s' × ((i : ℤ) → get i s.trigger ≡ none → get i s'.trigger ≡ none)
  unfolding listen_connectors notify trigger_unregister
  loop_lem [] status cp s own present on = (tt, λ i h. h)
  loop_lem ((k, c) ∷ cs) status cp s (own, rest) present on =
      let id = c.current_transaction_id in
      let n = status_notice c.id status in
      let s1 = notify n (trigger_unregister id s) in
      let (unwatched, kept_) = loop_lem cs status cp s1 rest present on in
      let checked = check_offline c s (ap (λ p. get p s.charge_points) own ∙ present) on in
      subst
        (λ (u : System sv).
          let s' = listen_connectors cs false status (notify n u) in
          Unwatched ((k, c) ∷ cs) s' × ((i : ℤ) → get i s.trigger ≡ none → get i s'.trigger ≡ none))
        (sym checked)
        (
          (kept_ id (get-remove_self id s.trigger), unwatched),
          λ i h. kept_ i (remove_keeps i id s.trigger h),
        )

  -- With a database set, a charge point in memory whose trigger is on, and whose connectors are its
  -- own, is recorded as offline when it disconnects, and none of the transactions of its connectors is
  -- asked for meter values any more.
  pub offline_unwatches_sessions :
      (cp : String) (now : ℕ) (s : System sv) {st : ChargePointState}
      → get cp s.charge_points ≡ some st
      → st.model.id ≡ cp
      → st.trigger_message ≡ true
      → st.model.is_online ≡ true
      → OwnedBy cp st.connectors
      → sv.has_database ≡ true
      → (s' : System sv) × (st' : ChargePointState) × (on_online_status_changed cp false now s
          ≡ returned s')
        × (get cp s'.charge_points ≡ some st')
        × (st'.model.is_online ≡ false)
        × (st'.connectors ≡ st.connectors)
        × Unwatched st.connectors s'
  unfolding on_online_status_changed online_from changed_online notify save
  offline_unwatches_sessions cp now s {st = st} present named on online own set =
      let off = record st.model { is_online = false; event_time = now } in
      let st' = record st { model = off } in
      let s1 =
        listen_connectors st.connectors false "Offline" (notify (online_notice cp false) s) in
      let s2 = save st' s1 in
      let s' = record s2 { store = (sv.update_online_status s2.store cp false).0 } in
      let (unwatched, _) =
        loop_lem st.connectors "Offline" cp (notify (online_notice cp false) s) own present on in
      let finish : System sv → Outcome (System sv) = λ u.
        let u2 = save st' u in
        if sv.has_database
        then returned (record u2 { store = (sv.update_online_status u2.store cp false).0 })
        else panicked in
      let gate : (not false && not st.model.is_online) ≡ false = ap not online in
      let change : differs st.model.is_online false ≡ true = ap (λ b. differs b false) online in
      (
        s',
        st',
        ap (λ (r : Option ChargePointState × System sv). online_from r cp false now)
              (get_charge_point_known cp s present)
            ∙ if_false (returned s) _ gate
            ∙ ap finish (if_true (changed_online cp false st s) s change)
            ∙ if_true (returned s') panicked set,
        get-save st' s1 named,
        refl,
        refl,
        unwatched,
      )
