-- ===== src/Invocation.antt =====
-- The record of a call of a server's tool (apps/server/src/domain/invocation.ts).
pub mod Once
pub mod Accounts
mod Tests
use kajovo_cml.Prelude.{
  ℕ, ◌+◌, Bool, true, false, ◌&&◌, ◌==◌, nat_eq, string_eq, option_beq, Option, none, some, List,
  [], ◌∷◌, String, find, any, update_where, take, is_some, if◌then◌else◌, Result, ok, err,
}
use kajovo_cml.Security.Redact.{
  Json, null, text, bool, num, uuid, object, fields, text_or_null, Fields,
}
use kajovo_cml.Security.Text.{codes}
use kajovo_cml.Audit
use kajovo_cml.Audit.{AuditInput, AuditLog, append_audit}
use kajovo_cml.Alerts.Store.{AlertRow, AlertStore, critical, open_, is_live, primary, backup}
use kajovo_cml.Alerts.Raise.{FreshIds, RaiseAlert, new_alert, new_delivery}

pub data InvocationStatus : Type 0 where
  accepted succeeded failed finalization_failed : InvocationStatus

-- `mcp_invocation`.
pub record InvocationRow : Type 0 where
  pub id : ℕ
  pub server_id : ℕ
  pub credential_id : ℕ
  pub correlation_id : ℕ
  pub request_digest : String
  pub idempotency_key : Option String
  pub status : InvocationStatus
  pub latency_ms : Option ℕ
  pub error_class : Option String
  pub response_digest : Option ℕ
  pub finalized_at : Option ℕ

-- `function_statistics`; the server's id is its key.
pub record StatisticsRow : Type 0 where
  pub server_id : ℕ
  pub success_count : ℕ
  pub failure_count : ℕ
  pub last_success_at : Option ℕ
  pub last_failure_at : Option ℕ

-- `mcp_invocation_metric`.
pub record MetricRow : Type 0 where
  pub server_id : ℕ
  pub success : Bool
  pub latency_ms : ℕ
  pub classification : Option String
  pub correlation_id : ℕ

-- `mcp_invocation_idempotency`.
pub record IdempotencyRow : Type 0 where
  pub server_id : ℕ
  pub credential_id : ℕ
  pub idempotency_key : String
  pub status : String
  pub response_json : Option Json
  pub completed_at : Option ℕ
  pub updated_at : ℕ

pub record InvocationStore : Type 0 where
  pub invocations : List InvocationRow
  pub statistics : List StatisticsRow
  pub metrics : List MetricRow
  pub idempotency : List IdempotencyRow
  pub alerting : AlertStore

pub record BeginInput : Type 0 where
  pub server_id : ℕ
  pub credential_id : ℕ
  pub correlation_id : ℕ
  pub request_digest : String
  pub idempotency_key : Option String

-- `appendAudit` on the store's log.
abbrev pub with_audit : AlertStore → AuditInput → AlertStore
unfolding append_audit
with_audit db event = record db { audit = append_audit db.audit event }

pub accepted_event : ℕ → BeginInput → AuditInput
accepted_event id input = record {
  event_type = "mcp.invocation.accepted";
  actor_type = "kaja";
  actor_id = some (Audit.uuid input.credential_id);
  object_type = some "mcp_server";
  object_id = some (Audit.uuid input.server_id);
  before = null;
  after = object (
      ("invocationId", uuid id)
      ∷ ("requestDigest", text (codes input.request_digest))
      ∷ ("idempotencyKeyPresent", bool (key_given input.idempotency_key))
      ∷ []);
  correlation_id = input.correlation_id;
}
  where
    key_given : Option String → Bool
    key_given none = false
    key_given (some key) = if key == "" then false else true

unfoldable pub begin_invocation : InvocationStore → ℕ → BeginInput → InvocationStore
unfolding with_audit
begin_invocation db id input = record db {
  invocations =
      record {
        id = id;
        server_id = input.server_id;
        credential_id = input.credential_id;
        correlation_id = input.correlation_id;
        request_digest = input.request_digest;
        idempotency_key = input.idempotency_key;
        status = accepted;
        latency_ms = none;
        error_class = none;
        response_digest = none;
        finalized_at = none;
      }
      ∷ db.invocations;
  alerting = with_audit db.alerting (accepted_event id input);
}

pub record InvocationOutcome : Type 0 where
  pub success : Bool
  pub latency_ms : ℕ
  pub error_class : Option String
  pub event_type : String
  pub response : Json
  -- The key and the credential.
  pub idempotency : Option (String × ℕ)

pub record FinalizeInput : Type 0 where
  pub invocation_id : ℕ
  pub server_id : ℕ
  pub credential_id : ℕ
  pub correlation_id : ℕ
  pub outcome : InvocationOutcome

pub data FinalizeError : Type 0 where
  invocation_not_finalizable : FinalizeError

-- `id=$1 and status='ACCEPTED'`.
abbrev pub is_accepted : ℕ → InvocationRow → Bool
is_accepted id i = (i.id == id) && elim i.status [ accepted ↦ true | _ ↦ false ]

abbrev pub finalized : ℕ → ℕ → InvocationOutcome → InvocationRow → InvocationRow
finalized now digest outcome i = record i {
  status = if outcome.success then succeeded else failed;
  latency_ms = some outcome.latency_ms;
  error_class = outcome.error_class;
  response_digest = some digest;
  finalized_at = some now;
}

-- `insert into function_statistics … on conflict (server_id) do update`.
unfoldable pub count_outcome : ℕ → ℕ → Bool → List StatisticsRow → List StatisticsRow
count_outcome now server_id true [] =
    record {
      server_id = server_id;
      success_count = 1;
      failure_count = 0;
      last_success_at = some now;
      last_failure_at = none;
    }
    ∷ []
count_outcome now server_id false [] =
    record {
      server_id = server_id;
      success_count = 0;
      failure_count = 1;
      last_success_at = none;
      last_failure_at = some now;
    }
    ∷ []
count_outcome now server_id success (s ∷ rows) =
    let rest = count_outcome now server_id success rows in
    if s.server_id == server_id
    then (if success
        then record s { success_count = s.success_count + 1; last_success_at = some now }
        else record s { failure_count = s.failure_count + 1; last_failure_at = some now })
      ∷ rows
    else s ∷ rest

abbrev pub completed : ℕ → Json → IdempotencyRow → IdempotencyRow
completed now response r = record r {
  status = "COMPLETED";
  response_json = some response;
  completed_at = some now;
  updated_at = now;
}

abbrev pub complete_idempotency :
    ℕ → ℕ → InvocationOutcome → List IdempotencyRow → List IdempotencyRow
complete_idempotency now server_id outcome rows = elim outcome.idempotency [
  | none ↦ rows
  | some key ↦
      update_where
        (λ (r : IdempotencyRow).
          (r.server_id == server_id) && (r.credential_id == key.1) && (r.idempotency_key == key.0))
        (completed now outcome.response) rows
]

pub outcome_event : ℕ → FinalizeInput → AuditInput
outcome_event digest input = record {
  event_type = input.outcome.event_type;
  actor_type = "kaja";
  actor_id = some (Audit.uuid input.credential_id);
  object_type = some "mcp_server";
  object_id = some (Audit.uuid input.server_id);
  before = null;
  after = object (
      ("invocationId", uuid input.invocation_id)
      ∷ ("latencyMs", num input.outcome.latency_ms)
      ∷ ("errorClass", text_or_null input.outcome.error_class)
      ∷ ("responseDigest", num digest)
      ∷ []);
  correlation_id = input.correlation_id;
}

-- The writes of `finalizeInvocation`; `digest` is the hash of a response.
unfoldable pub write_finalization :
    (Json → ℕ) → InvocationStore → ℕ → FinalizeInput → InvocationStore
unfolding count_outcome with_audit
write_finalization digest db now input =
    let outcome = input.outcome in
    let response_digest = digest outcome.response in
    record {
      invocations =
          update_where (is_accepted input.invocation_id) (finalized now response_digest outcome)
            db.invocations;
      statistics = count_outcome now input.server_id outcome.success db.statistics;
      metrics =
          record {
            server_id = input.server_id;
            success = outcome.success;
            latency_ms = outcome.latency_ms;
            classification = outcome.error_class;
            correlation_id = input.correlation_id;
          }
          ∷ db.metrics;
      idempotency = complete_idempotency now input.server_id outcome db.idempotency;
      alerting = with_audit db.alerting (outcome_event response_digest input);
    }

-- `finalizeInvocation`: an update that concerns no row rolls everything back.
unfoldable pub finalize_invocation :
    (Json → ℕ) → InvocationStore → ℕ → FinalizeInput → Result FinalizeError InvocationStore
unfolding write_finalization
finalize_invocation digest db now input =
    if any (is_accepted input.invocation_id) db.invocations
    then ok (write_finalization digest db now input)
    else err invocation_not_finalizable

pub record FailureInput : Type 0 where
  pub invocation_id : ℕ
  pub server_id : ℕ
  pub correlation_id : ℕ
  pub error : List ℕ

abbrev pub failure_type : String
failure_type = "invocation.finalization_failed"

abbrev pub failure_detail : FailureInput → Fields
failure_detail input =
    fields
      (("invocationId", uuid input.invocation_id) ∷ ("error", text (take 500 input.error)) ∷ [])

-- The live alert that it looks up, whatever its managed service.
abbrev pub is_failure_alert : ℕ → AlertRow → Bool
is_failure_alert server_id a =
    option_beq a.server_id (some server_id) && (a.alert_type == failure_type) && is_live a.status

abbrev pub failure_alert : FailureInput → RaiseAlert
failure_alert input = record {
  server_id = some input.server_id;
  managed_service_id = none;
  severity = critical;
  alert_type = failure_type;
  title = "MCP invocation finalization failed";
  detail = failure_detail input;
  correlation_id = input.correlation_id;
}

abbrev pub failed_again : ℕ → FailureInput → AlertRow → AlertRow
failed_again now input a = record a {
  severity = critical;
  last_seen_at = now;
  correlation_id = input.correlation_id;
  detail = failure_detail input;
}

unfoldable pub raise_failure : AlertStore → ℕ → FreshIds → FailureInput → AlertStore
raise_failure db now fresh input = elim (find (is_failure_alert input.server_id) db.alerts) [
  | some existing ↦ record db {
    alerts =
        update_where (λ (a : AlertRow). a.id == existing.id) (failed_again now input) db.alerts;
  }
  | none ↦ record db {
    alerts = new_alert now fresh.alert (failure_alert input) ∷ db.alerts;
    deliveries =
        new_delivery now fresh.primary_delivery primary fresh.alert fresh.primary_key
        ∷ new_delivery now fresh.backup_delivery backup fresh.alert fresh.backup_key
        ∷ db.deliveries;
  }
]

abbrev pub unfinalized : ℕ → InvocationRow → InvocationRow
unfinalized now i = record i {
  status = finalization_failed;
  error_class = some "finalization";
  finalized_at = some now;
}

-- `recordFinalizationFailure`.
unfoldable pub record_finalization_failure :
    InvocationStore → ℕ → FreshIds → FailureInput → InvocationStore
unfolding raise_failure
record_finalization_failure db now fresh input = record db {
  invocations = update_where (is_accepted input.invocation_id) (unfinalized now) db.invocations;
  alerting = raise_failure db.alerting now fresh input;
}
