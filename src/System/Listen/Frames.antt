-- ===== src/System/Listen/Frames.antt =====
-- What `checkListenTransaction` of server/system_handler.go leaves alone.
use evsys.Common.{Bool, Option, arith, if_ind, none, refl, some, ◌∙◌}
use evsys.Entity.{Connector}
use evsys.System.Laws.{Laws}
use evsys.System.Listen.{check_listen_transaction, listen, listen_from}
use evsys.System.Lookup.{get_charge_point}
use evsys.System.Lookup.Counters.{SameCounter, get_charge_point_counter}
use evsys.System.Lookup.Documents.{SameDocuments, get_charge_point_keeps}
use evsys.System.State.{ChargePointState, Services, System}

module _ {sv : Services} where
  -- The same stored transactions and the same counter of ids.
  abbrev pub SameIds : System sv → System sv → Type 0
  SameIds s s' = SameDocuments s s' × SameCounter s s'

  pub SameIds-trans : (s s' s'' : System sv) → SameIds s s' → SameIds s' s'' → SameIds s s''
  SameIds-trans s s' s'' (docs, next) (docs', next') = (λ j. docs' j ∙ docs j, next' ∙ next)

  listen_same : (c : Connector) (o : Bool) (s : System sv) → SameIds s (listen c o s)
  unfolding listen
  listen_same c o s = (λ j. ground arith, ground arith)

  listen_from_same :
      (p : Option ChargePointState) (s : System sv) (c : Connector) (o : Bool)
      → SameIds s (listen_from (p, s) c o)
  unfolding listen_from
  listen_from_same (some st) s c o =
      if_ind (SameIds s) st.trigger_message (listen c o s) s (listen_same c o s) (λ j. refl, refl)
  listen_from_same none s c o = listen_same c o s

  pub check_listen-SameIds :
      (laws : Laws sv) (c : Connector) (o : Bool) (s : System sv)
      → SameIds s (check_listen_transaction c o s)
  unfolding check_listen_transaction
  check_listen-SameIds laws c o s =
      let (p, s') = get_charge_point c.charge_point_id s in
      SameIds-trans s s' (listen_from (p, s') c o)
        (
          get_charge_point_keeps laws c.charge_point_id s,
          get_charge_point_counter c.charge_point_id s,
        )
        (listen_from_same p s' c o)
