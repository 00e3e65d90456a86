-- ===== src/Alerts/Deliver.antt =====
-- The delivery of an alert's webhook (apps/server/src/domain/alerts.ts). Moments are seconds.
use kajovo_cml.Prelude.{
  ℕ, ◌+◌, ◌*◌, ◌^◌, min, Bool, true, false, not, ◌&&◌, ◌||◌, ◌==◌, nat_eq, Option, none, some, List,
  [], ◌∷◌, String, find, update_where, leb, ltb, is_some, if◌then◌else◌, Result, ok, err,
}
use kajovo_cml.Security.Redact.{Json, null, text, num, uuid, obj, object, text_or_null}
use kajovo_cml.Security.Text.{codes}
use kajovo_cml.Audit
use kajovo_cml.Audit.{AuditInput, append_audit}
use kajovo_cml.Alerts.Store.{
  AlertSeverity, warning, high, critical, Channel, primary, backup, DeliveryState, pending, retry,
  delivered, dead_letter, AlertRow, DeliveryRow, AlertStore,
}
use kajovo_cml.Alerts.Raise.{severity_text}

-- `case alert.severity when …`.
abbrev pub severity_rank : AlertSeverity → ℕ
severity_rank critical = 1
severity_rank high = 2
severity_rank warning = 3

abbrev pub is_open : DeliveryState → Bool
is_open pending = true
is_open retry = true
is_open _ = false

-- A row of the join of deliveries with their alerts.
pub record Candidate : Type 0 where
  pub delivery : DeliveryRow
  pub alert : AlertRow

-- The rows that may be leased: due, and not locked by another worker (`skip locked`).
unfoldable pub candidates : List AlertRow → (ℕ → Bool) → ℕ → List DeliveryRow → List Candidate
candidates alerts locked now [] = []
candidates alerts locked now (d ∷ ds) =
    let rest = candidates alerts locked now ds in
    if is_open d.state && leb d.next_attempt_at now && not (locked d.id)
    then (elim (find (λ (a : AlertRow). a.id == d.alert_id) alerts) [
      | none ↦ rest
      | some a ↦ record { delivery = d; alert = a } ∷ rest
    ])
    else rest

-- The order of the query.
abbrev pub comes_before : Candidate → Candidate → Bool
comes_before c d =
    ltb (severity_rank c.alert.severity) (severity_rank d.alert.severity)
    || (severity_rank c.alert.severity == severity_rank d.alert.severity
        && ltb c.delivery.next_attempt_at d.delivery.next_attempt_at)

abbrev pub better : Option Candidate → Candidate → Candidate
better none c = c
better (some best) c = if comes_before best c then best else c

-- `order by … limit 1`.
unfoldable pub first_candidate : List Candidate → Option Candidate
first_candidate [] = none
first_candidate (c ∷ cs) = some (better (first_candidate cs) c)

pub record DeliveryLease : Type 0 where
  pub id : ℕ
  pub alert_id : ℕ
  pub channel : Channel
  pub idempotency_key : ℕ
  pub attempt_count : ℕ
  pub payload : Json

-- What is sent; `describe` and `describe_managed` stand for the left joins on the server and on the
-- managed service.
pub payload_of : (Option ℕ → Json) → (Option ℕ → Json) → AlertRow → Json
payload_of describe describe_managed a = object (
    ("alertId", uuid a.id)
    ∷ ("severity", text (codes (severity_text a.severity)))
    ∷ ("type", text (codes a.alert_type))
    ∷ ("title", text (codes a.title))
    ∷ ("detail", obj a.detail)
    ∷ ("correlationId", uuid a.correlation_id)
    ∷ ("firstSeenAt", num a.first_seen_at)
    ∷ ("lastSeenAt", num a.last_seen_at)
    ∷ ("server", describe a.server_id)
    ∷ ("managedService", describe_managed a.managed_service_id)
    ∷ [])

-- The write of a lease: an attempt more, and two minutes for it.
abbrev pub attempted : ℕ → ℕ → DeliveryRow → DeliveryRow
attempted now count d = record d {
  attempt_count = count;
  next_attempt_at = now + 120;
  updated_at = now;
}

-- The rows that other workers have locked, and what the left joins tell of a server and of a managed
-- service.
pub record Worker : Type 0 where
  pub locked : ℕ → Bool
  pub describe : Option ℕ → Json
  pub describe_managed : Option ℕ → Json

unfoldable pub lease_of : Worker → Candidate → DeliveryLease
unfolding payload_of
lease_of w c = record {
  id = c.delivery.id;
  alert_id = c.delivery.alert_id;
  channel = c.delivery.channel;
  idempotency_key = c.delivery.idempotency_key;
  attempt_count = c.delivery.attempt_count + 1;
  payload = payload_of w.describe w.describe_managed c.alert;
}

unfoldable pub lease_delivery : Worker → AlertStore → ℕ → AlertStore × Option DeliveryLease
unfolding candidates first_candidate lease_of
lease_delivery w db now = elim (first_candidate (candidates db.alerts w.locked now db.deliveries)) [
  | none ↦ (db, none)
  | some c ↦ (
    record db {
      deliveries =
          update_where (λ (d : DeliveryRow). d.id == c.delivery.id)
            (attempted now (c.delivery.attempt_count + 1)) db.deliveries;
    },
    some (lease_of w c),
  )
]

pub record DeliveryConfig : Type 0 where
  pub primary_webhook_url : Option String
  pub primary_hmac_key : Option String
  pub backup_webhook_url : Option String
  pub backup_hmac_key : Option String

abbrev pub credential_of : Option String → Option String → String → Result String (String × String)
credential_of (some url) (some key) missing = ok (url, key)
credential_of _ _ missing = err missing

-- `webhookCredential`; a credential that is set to nothing is none.
pub webhook_credential : DeliveryConfig → Channel → Result String (String × String)
webhook_credential config primary =
    credential_of config.primary_webhook_url config.primary_hmac_key
      "alert_webhook_credential_missing:primary"
webhook_credential config backup =
    credential_of config.backup_webhook_url config.backup_hmac_key
      "alert_webhook_credential_missing:backup"

-- What became of the request: `httpStatus`, `responseDigest` and `failure`.
pub record Outcome : Type 0 where
  pub http_status : Option ℕ
  pub response_digest : Option ℕ
  pub failure : Option String

-- The request: `post` sends a payload, signed with the key, and answers with the status, the digest of
-- the body and what the failure is called if the status is none of success, or with an error.
unfoldable pub attempt :
    (String → String → DeliveryLease → Outcome) → DeliveryConfig → DeliveryLease → Outcome
unfolding webhook_credential
attempt post config lease = elim (webhook_credential config lease.channel) [
  | err message ↦ record { http_status = none; response_digest = none; failure = some message }
  | ok credential ↦ post credential.0 credential.1 lease
]

-- `Math.min(3_600, 30 * 2 ** Math.min(attemptCount, 7))`.
unfoldable pub next_delay_seconds : ℕ → ℕ
next_delay_seconds attempts = min 3600 (30 * 2 ^ min attempts 7)

abbrev pub is_terminal : Option String → ℕ → Bool
is_terminal failure attempts = is_some failure && leb 10 attempts

abbrev pub outcome_state : Option String → ℕ → DeliveryState
outcome_state failure attempts =
    if is_some failure
    then (if is_terminal failure attempts then dead_letter else retry)
    else delivered

abbrev pub settled : ℕ → DeliveryLease → Outcome → DeliveryRow → DeliveryRow
settled now lease outcome d =
    let state = outcome_state outcome.failure lease.attempt_count in
    record d {
      state = state;
      last_http_status = outcome.http_status;
      last_error = outcome.failure;
      response_digest = outcome.response_digest;
      delivered_at = elim state [ delivered ↦ some now | _ ↦ d.delivered_at ];
      next_attempt_at = elim state [
        | retry ↦ now + next_delay_seconds lease.attempt_count
        | _ ↦ d.next_attempt_at
      ];
      updated_at = now;
    }

abbrev pub outcome_event : DeliveryState → String
outcome_event dead_letter = "alert.delivery.dead_letter"
outcome_event delivered = "alert.delivery.succeeded"
outcome_event _ = "alert.delivery.retry"

abbrev pub number_or_null : Option ℕ → Json
number_or_null none = null
number_or_null (some n) = num n

pub delivery_event : ℕ → DeliveryLease → Outcome → AuditInput
delivery_event correlation lease outcome = record {
  event_type = outcome_event (outcome_state outcome.failure lease.attempt_count);
  actor_type = "system";
  actor_id = none;
  object_type = some "operational_alert";
  object_id = some (Audit.uuid lease.alert_id);
  before = null;
  after = object (
      ("channel", text (codes (elim lease.channel [ primary ↦ "PRIMARY" | backup ↦ "BACKUP" ])))
      ∷ ("idempotencyKey", uuid lease.idempotency_key)
      ∷ ("attemptCount", num lease.attempt_count)
      ∷ ("httpStatus", number_or_null outcome.http_status)
      ∷ ("responseDigest", number_or_null outcome.response_digest)
      ∷ ("error", text_or_null outcome.failure)
      ∷ []);
  correlation_id = correlation;
}

-- The last transaction of `deliverNextAlert`.
unfoldable pub settle_delivery : AlertStore → ℕ → ℕ → DeliveryLease → Outcome → AlertStore
unfolding append_audit
settle_delivery db now correlation lease outcome = record db {
  deliveries =
      update_where (λ (d : DeliveryRow). d.id == lease.id) (settled now lease outcome)
        db.deliveries;
  audit = append_audit db.audit (delivery_event correlation lease outcome);
}

-- `deliverNextAlert` without another worker between its transactions: the store, and whether there
-- was a delivery.
unfoldable pub deliver_next_alert :
    Worker
    → (String → String → DeliveryLease → Outcome)
    → DeliveryConfig
    → AlertStore
    → ℕ
    → ℕ
    → AlertStore × Bool
unfolding lease_delivery settle_delivery attempt
deliver_next_alert w post config db now correlation =
    let (leased, lease) = lease_delivery w db now in
    elim lease [
      | none ↦ (leased, false)
      | some l ↦ (settle_delivery leased now correlation l (attempt post config l), true)
    ]
