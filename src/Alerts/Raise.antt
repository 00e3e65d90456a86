-- ===== src/Alerts/Raise.antt =====
-- Raising, closing and the end of suppressions (apps/server/src/domain/alerts.ts).
use kajovo_cml.Prelude.{
  ℕ, Bool, true, false, ◌==◌, nat_eq, Option, none, some, [], ◌∷◌, map, String, find, filter,
  update_where, leb, length,
}
use kajovo_cml.Security.Redact.{Fields, null, text, obj, object, uuid_or_null}
use kajovo_cml.Security.Text.{codes}
use kajovo_cml.Audit.{AuditInput, uuid, append_audit}
use kajovo_cml.Alerts.Store.{
  AlertSeverity, warning, high, critical, open_, suppressed, closed, Channel, primary, backup,
  pending, AlertRow, DeliveryRow, AlertStore, is_live_for, append_audits,
}

pub record RaiseAlert : Type 0 where
  pub server_id : Option ℕ
  pub managed_service_id : Option ℕ
  pub severity : AlertSeverity
  pub alert_type : String
  pub title : String
  pub detail : Fields
  pub correlation_id : ℕ

abbrev pub severity_text : AlertSeverity → String
severity_text warning = "WARNING"
severity_text high = "HIGH"
severity_text critical = "CRITICAL"

-- The identifiers that the database and `randomUUID` draw for a new alert and its deliveries.
pub record FreshIds : Type 0 where
  pub alert : ℕ
  pub primary_delivery : ℕ
  pub primary_key : ℕ
  pub backup_delivery : ℕ
  pub backup_key : ℕ

abbrev pub seen_again : ℕ → RaiseAlert → AlertRow → AlertRow
seen_again now alert a = record a {
  severity = alert.severity;
  title = alert.title;
  detail = alert.detail;
  last_seen_at = now;
  correlation_id = alert.correlation_id;
}

abbrev pub new_alert : ℕ → ℕ → RaiseAlert → AlertRow
new_alert now id alert = record {
  id = id;
  server_id = alert.server_id;
  managed_service_id = alert.managed_service_id;
  severity = alert.severity;
  alert_type = alert.alert_type;
  status = open_;
  title = alert.title;
  detail = alert.detail;
  correlation_id = alert.correlation_id;
  first_seen_at = now;
  last_seen_at = now;
  suppression_reason = none;
  suppression_owner = none;
  suppressed_until = none;
  closed_at = none;
}

abbrev pub new_delivery : ℕ → ℕ → Channel → ℕ → ℕ → DeliveryRow
new_delivery now id channel alert_id key = record {
  id = id;
  alert_id = alert_id;
  channel = channel;
  idempotency_key = key;
  attempt_count = 0;
  state = pending;
  last_http_status = none;
  last_error = none;
  response_digest = none;
  next_attempt_at = now;
  delivered_at = none;
  updated_at = now;
}

pub opened_event : ℕ → RaiseAlert → AuditInput
opened_event id alert = record {
  event_type = "alert.opened";
  actor_type = "system";
  actor_id = none;
  object_type = some "operational_alert";
  object_id = some (uuid id);
  before = null;
  after = object (
      ("serverId", uuid_or_null alert.server_id)
      ∷ ("managedServiceId", uuid_or_null alert.managed_service_id)
      ∷ ("severity", text (codes (severity_text alert.severity)))
      ∷ ("alertType", text (codes alert.alert_type))
      ∷ ("title", text (codes alert.title))
      ∷ ("detail", obj alert.detail)
      ∷ []);
  correlation_id = alert.correlation_id;
}

-- The live alert that `raiseAlert` looks up.
abbrev pub existing_alert : AlertStore → RaiseAlert → Option AlertRow
existing_alert db alert =
    find (is_live_for alert.server_id alert.managed_service_id alert.alert_type) db.alerts

-- `raiseAlert`: the store, the alert's id and whether it is new.
unfoldable pub raise_alert : AlertStore → ℕ → FreshIds → RaiseAlert → AlertStore × ℕ × Bool
unfolding append_audit
raise_alert db now fresh alert = elim (existing_alert db alert) [
  | some existing ↦ (
    record db {
      alerts =
          update_where (λ (a : AlertRow). a.id == existing.id) (seen_again now alert) db.alerts;
    },
    existing.id,
    false,
  )
  | none ↦ (
    record {
      alerts = new_alert now fresh.alert alert ∷ db.alerts;
      deliveries =
          new_delivery now fresh.primary_delivery primary fresh.alert fresh.primary_key
          ∷ new_delivery now fresh.backup_delivery backup fresh.alert fresh.backup_key
          ∷ db.deliveries;
      audit = append_audit db.audit (opened_event fresh.alert alert);
    },
    fresh.alert,
    true,
  )
]

pub record CloseAlert : Type 0 where
  pub server_id : Option ℕ
  pub managed_service_id : Option ℕ
  pub alert_type : String
  pub reason : String
  pub correlation_id : ℕ

abbrev pub closed_row : ℕ → AlertRow → AlertRow
closed_row now a = record a { status = closed; closed_at = some now; last_seen_at = now }

pub closed_event : CloseAlert → AlertRow → AuditInput
closed_event params a = record {
  event_type = "alert.closed";
  actor_type = "system";
  actor_id = none;
  object_type = some "operational_alert";
  object_id = some (uuid a.id);
  before = null;
  after = object (
      ("reason", text (codes params.reason))
      ∷ ("serverId", uuid_or_null params.server_id)
      ∷ ("managedServiceId", uuid_or_null params.managed_service_id)
      ∷ []);
  correlation_id = params.correlation_id;
}

unfoldable pub close_alert : AlertStore → ℕ → CloseAlert → AlertStore
unfolding append_audits
close_alert db now params =
    let concerned = is_live_for params.server_id params.managed_service_id params.alert_type in
    record db {
      alerts = update_where concerned (closed_row now) db.alerts;
      audit = append_audits db.audit (map (closed_event params) (filter concerned db.alerts));
    }

-- `status='SUPPRESSED' and suppressed_until<=now()`; a comparison with null does not hold.
abbrev pub is_expired : ℕ → AlertRow → Bool
is_expired now a = elim a.status [
  | suppressed ↦ elim a.suppressed_until [ none ↦ false | some t ↦ leb t now ]
  | _ ↦ false
]

abbrev pub reopened : ℕ → AlertRow → AlertRow
reopened now a = record a {
  status = open_;
  suppression_reason = none;
  suppression_owner = none;
  suppressed_until = none;
  last_seen_at = now;
}

pub expired_event : ℕ → AlertRow → AuditInput
expired_event correlation a = record {
  event_type = "alert.suppression.expired";
  actor_type = "system";
  actor_id = none;
  object_type = some "operational_alert";
  object_id = some (uuid a.id);
  before = null;
  after = object (
      ("serverId", uuid_or_null a.server_id)
      ∷ ("managedServiceId", uuid_or_null a.managed_service_id)
      ∷ ("alertType", text (codes a.alert_type))
      ∷ []);
  correlation_id = correlation;
}

-- `expireAlertSuppressions`: the store and the number of alerts reopened.
unfoldable pub expire_alert_suppressions : AlertStore → ℕ → ℕ → AlertStore × ℕ
unfolding append_audits
expire_alert_suppressions db now correlation =
    let expired = filter (is_expired now) db.alerts in
    (
      record db {
        alerts = update_where (is_expired now) (reopened now) db.alerts;
        audit = append_audits db.audit (map (expired_event correlation) expired);
      },
      length expired,
    )
