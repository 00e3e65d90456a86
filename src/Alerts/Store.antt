-- ===== src/Alerts/Store.antt =====
-- The tables of apps/server/src/domain/alerts.ts.
use kajovo_cml.Prelude.{
  ℕ, Bool, true, false, ◌&&◌, ◌==◌, nat_eq, string_eq, option_beq, Option, List, [], ◌∷◌, String,
}
use kajovo_cml.Security.Redact.{Fields}
use kajovo_cml.Audit.{AuditInput, AuditLog, append_audit}

pub data AlertSeverity : Type 0 where
  warning high critical : AlertSeverity

pub data AlertStatus : Type 0 where
  open_ acknowledged suppressed closed : AlertStatus

pub data Channel : Type 0 where
  primary backup : Channel

pub data DeliveryState : Type 0 where
  pending retry delivered dead_letter : DeliveryState

pub record AlertRow : Type 0 where
  pub id : ℕ
  pub server_id : Option ℕ
  pub managed_service_id : Option ℕ
  pub severity : AlertSeverity
  pub alert_type : String
  pub status : AlertStatus
  pub title : String
  pub detail : Fields
  pub correlation_id : ℕ
  pub first_seen_at : ℕ
  pub last_seen_at : ℕ
  pub suppression_reason : Option String
  pub suppression_owner : Option ℕ
  pub suppressed_until : Option ℕ
  pub closed_at : Option ℕ

pub record DeliveryRow : Type 0 where
  pub id : ℕ
  pub alert_id : ℕ
  pub channel : Channel
  pub idempotency_key : ℕ
  pub attempt_count : ℕ
  pub state : DeliveryState
  pub last_http_status : Option ℕ
  pub last_error : Option String
  pub response_digest : Option ℕ
  pub next_attempt_at : ℕ
  pub delivered_at : Option ℕ
  pub updated_at : ℕ

pub record AlertStore : Type 0 where
  pub alerts : List AlertRow
  pub deliveries : List DeliveryRow
  pub audit : AuditLog

-- `status in ('OPEN','ACKNOWLEDGED','SUPPRESSED')`.
abbrev pub is_live : AlertStatus → Bool
is_live closed = false
is_live _ = true

-- The condition by which an alert is looked up.
abbrev pub is_live_for : Option ℕ → Option ℕ → String → AlertRow → Bool
is_live_for server_id managed_service_id alert_type a =
    option_beq a.server_id server_id
    && option_beq a.managed_service_id managed_service_id
    && (a.alert_type == alert_type)
    && is_live a.status

-- Appends in the order of a loop.
unfoldable pub append_audits : AuditLog → List AuditInput → AuditLog
unfolding append_audit
append_audits log [] = log
append_audits log (event ∷ events) = append_audits (append_audit log event) events
