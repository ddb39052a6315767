-- ===== src/Central/Routes.antt =====
-- The router of OCPP 2.0.1: `routeOCPP201Request` of server/central_system.go.
use evsys.Central.{
  Request, Routed, authorize201, authorize_response201, boot_notification201, boot_response201,
  cleared_charging_limit, empty_response, heartbeat201, heartbeat_response, not_supported,
  notify_report, responded, status_notification201, transaction_event,
}
use evsys.Common.{Bool, String, if◌then◌else◌, int_has_eq, nat_has_eq, not, string_has_eq, ℕ, ◌==◌}
use evsys.System.State.{Outcome, Services, System, panicked, ◌>>=◌}
use evsys.V201.Events.{on_transaction_event}
use evsys.V201.Handlers.{
  BootNotificationResponse201, on_authorize201, on_boot_notification201, on_notify_report,
  on_status_notification201,
}

module _ {sv : Services} where
  -- The cases of the switch. A request of another Go type fails the type assertion.
  boot_case201 : String → Request → System sv → Outcome (Routed sv)
  unfolding on_boot_notification201
  boot_case201 cp (boot_notification201 r) s =
      on_boot_notification201 cp r s >>= λ (a : BootNotificationResponse201 × System sv).
      responded (boot_response201 a.0) a.1
  boot_case201 cp r s = panicked

  heartbeat_case201 : Request → System sv → Outcome (Routed sv)
  heartbeat_case201 heartbeat201 s = responded heartbeat_response s
  heartbeat_case201 r s = panicked

  report_case : String → Request → System sv → Outcome (Routed sv)
  unfolding on_notify_report
  report_case cp (notify_report r) s = responded empty_response (on_notify_report cp r s)
  report_case cp r s = panicked

  authorize_case201 : String → Request → ℕ → System sv → Outcome (Routed sv)
  unfolding on_authorize201
  authorize_case201 cp (authorize201 token) now s =
      let (status, s') = on_authorize201 cp token now s in
      responded (authorize_response201 status) s'
  authorize_case201 cp r now s = panicked

  limit_case : Request → System sv → Outcome (Routed sv)
  limit_case cleared_charging_limit s = responded empty_response s
  limit_case r s = panicked

  -- An empty response, unless the handler returned an error.
  abbrev answer_if : Bool × System sv → Outcome (Routed sv)
  answer_if (ok, s) = if ok then responded empty_response s else not_supported s

  event_case : String → Request → ℕ → System sv → Outcome (Routed sv)
  unfolding on_transaction_event
  event_case cp (transaction_event r) now s = answer_if (on_transaction_event cp r now s)
  event_case cp r now s = panicked

  status_case201 : String → Request → System sv → Outcome (Routed sv)
  unfolding on_status_notification201
  status_case201 cp (status_notification201 r) s = answer_if (on_status_notification201 cp r s)
  status_case201 cp r s = panicked

  unfoldable pub route_ocpp201_request :
      Bool → String → String → Request → ℕ → System sv → Outcome (Routed sv)
  unfolding boot_case201 heartbeat_case201 report_case authorize_case201 limit_case event_case
      status_case201
  route_ocpp201_request has_handlers cp action r now s =
      if not has_handlers
      then not_supported s
      else if action == "BootNotification"
      then boot_case201 cp r s
      else if action == "Heartbeat"
      then heartbeat_case201 r s
      else if action == "NotifyReport"
      then report_case cp r s
      else if action == "Authorize"
      then authorize_case201 cp r now s
      else if action == "ClearedChargingLimit"
      then limit_case r s
      else if action == "TransactionEvent"
      then event_case cp r now s
      else if action == "StatusNotification"
      then status_case201 cp r s
      else not_supported s
