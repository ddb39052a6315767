-- ===== src/V201/Events/Lost.antt =====
-- The events after the first of a session of OCPP 2.0.1: the adapter leaves the id of the transaction
-- at 0, and `OnTransactionEvent` of server/v201_handlers.go looks that transaction up.
use evsys.Common.{List, String, ap, if_ind, inl, inr, pos, refl, true, ℕ, ℤ, ◌∙◌, ◌≡◌, ◌⊎◌}
use evsys.Entity.{Connector, Transaction}
use evsys.System.Laws.{Laws}
use evsys.System.State.{ChargePointState, Services, System, not_found}
use evsys.V201.Events.{
  TransactionEventRequest, event_ended, event_transaction, event_updated, handle_event,
  on_transaction_event,
}
use evsys.V201.Events.Located.{EvseIsNoted, Locates, on_event_located}
use evsys.V201.Types.{MeterValue201, transaction_event_ended, transaction_event_updated}

event_id : (cp : String) (req : TransactionEventRequest) → (event_transaction cp req).id ≡ pos 0
unfolding event_transaction
event_id cp req = refl

module _ {sv : Services} where
  updated_nothing :
      (event : Transaction) (ms : List MeterValue201) (s : System sv)
      → sv.get_transaction s.store event.id ≡ not_found
      → event_updated event ms s ≡ s
  unfolding event_updated
  updated_nothing event ms s missing =
      rw missing (if_ind (λ (u : System sv). u ≡ s) sv.has_database s s refl refl)

  ended_nothing :
      (event : Transaction) (key : ℤ) (c : Connector) (st : ChargePointState) (s : System sv)
      → sv.get_transaction s.store event.id ≡ not_found
      → event_ended event key c st s ≡ s
  unfolding event_ended
  ended_nothing event key c st s missing =
      rw missing (if_ind (λ (u : System sv). u ≡ s) sv.has_database s s refl refl)

  handle_nothing :
      (now : ℕ) (req : TransactionEventRequest) (event : Transaction) (key : ℤ) (c : Connector)
      (st : ChargePointState) (s : System sv)
      → (req.event_type ≡ transaction_event_updated) ⊎ (req.event_type ≡ transaction_event_ended)
      → sv.get_transaction s.store event.id ≡ not_found
      → handle_event now req event key c st s ≡ s
  unfolding handle_event
  handle_nothing now req event key c st s (inl e) missing =
      rw e (updated_nothing event req.meter_value s missing)
  handle_nothing now req event key c st s (inr e) missing =
      rw e (ended_nothing event key c st s missing)

  -- An event that reports the end of a session, or its meter values, is answered and has no effect on
  -- any session, where the database holds no transaction 0: the connector keeps its transaction and
  -- its limit, the charge point its transactions, every transaction document is as it was, and no
  -- listener is told.
  pub later_events_lost :
      (laws : Laws sv) (cp : String) (req : TransactionEventRequest) (now : ℕ) (s : System sv)
      {key : ℤ} {st : ChargePointState} {c : Connector}
      → Locates cp key req st c s
      → (req.event_type ≡ transaction_event_updated) ⊎ (req.event_type ≡ transaction_event_ended)
      → sv.get_transaction s.store (pos 0) ≡ not_found
      → (c' : Connector) × (st' : ChargePointState) × (s' : System sv) × (on_transaction_event cp
            req now s
          ≡ (true, s'))
        × EvseIsNoted cp key st c s c' st' s'
  later_events_lost laws cp req now s {key = key} l later missing =
      let (c', st', s', noted, eq) = on_event_located laws cp req now s l in
      let event = event_transaction cp req in
      let gone : sv.get_transaction s'.store event.id ≡ not_found =
        ap (sv.get_transaction s'.store) (event_id cp req)
        ∙ noted.same_documents (pos 0)
        ∙ missing in
      (
        c',
        st',
        s',
        eq ∙ ap (λ u. (true, u)) (handle_nothing now req event key c' st' s' later gone),
        noted,
      )
