-- ===== src/ServerState/Rows.antt =====
-- The rows and the event that `transitionServerState` of apps/server/src/domain/server-state.ts writes.
use kajovo_cml.Prelude.{ℕ, ◌+◌, Option, none, some, [], ◌∷◌, String, ◌==◌, nat_eq, if◌then◌else◌}
use kajovo_cml.Types.{
  RegistrationState, OperationalState, registration_text, operational_text, registration_eq,
  operational_eq,
}
use kajovo_cml.Recertification.{
  RecertificationDecision, RecertificationPhase, valid, warning, grace, suspended, invalid,
}
use kajovo_cml.Security.Redact
use kajovo_cml.Security.Redact.{Json, null, text, bool, obj, object, uuid_or_null}
use kajovo_cml.Security.Text.{codes}
use kajovo_cml.Audit.{uuid, AuditInput}
use kajovo_cml.ServerState.Lifecycle.{managed_lifecycle_for, serves}
use kajovo_cml.ServerState.Store.{
  ServerRow, RevisionRow, ManagedRow, ComponentRow, ApiState, ComponentLifecycle, ActivationState,
}
use kajovo_cml.ServerState.Checks.{TransitionParams, actor_text, Clocks}

-- The row of a server after a transition.
unfoldable pub moved_server : Clocks → RegistrationState → OperationalState → ServerRow → ServerRow
moved_server clocks to operational ms = record ms {
  enabled = serves to;
  registration_state = to;
  operational_state = operational;
  lock_version = ms.lock_version + 1;
  updated_at = clocks.database;
  retired_at = if to == RegistrationState.retired then some clocks.database else ms.retired_at;
}

-- The rows of `managed_service` that stand for the server.
unfoldable pub moved_managed :
    Clocks → RegistrationState → OperationalState → String → ManagedRow → ManagedRow
moved_managed clocks to operational reason managed = record managed {
  enabled = serves to;
  lifecycle_state = managed_lifecycle_for to;
  operational_state = operational;
  api_state = if serves to then ApiState.enabled else ApiState.disabled;
  api_disabled_reason = if serves to then none else some reason;
  last_policy_invalidation_at = clocks.database;
  lock_version = managed.lock_version + 1;
  updated_at = clocks.database;
}

unfoldable pub component_lifecycle_for : RegistrationState → ComponentLifecycle
component_lifecycle_for RegistrationState.quarantined = ComponentLifecycle.quarantined
component_lifecycle_for RegistrationState.retired = ComponentLifecycle.retired
component_lifecycle_for RegistrationState.suspended = ComponentLifecycle.suspended
component_lifecycle_for RegistrationState.trial = ComponentLifecycle.active
component_lifecycle_for RegistrationState.active = ComponentLifecycle.active
component_lifecycle_for _ = ComponentLifecycle.approved

-- The row of the component that the server belongs to, without its policy epoch, which a trigger of the
-- table counts on.
unfoldable pub moved_component : RegistrationState → OperationalState → ComponentRow → ComponentRow
moved_component to operational c = record c {
  enabled = serves to;
  ingress_enabled = serves to;
  pulse_enabled = serves to;
  egress_enabled = serves to;
  lifecycle_state = component_lifecycle_for to;
  activation_state = if serves to then ActivationState.active else ActivationState.ready;
  operational_state = operational;
  lock_version = c.lock_version + 1;
}

abbrev pub phase_text : RecertificationPhase → String
phase_text valid = "VALID"
phase_text warning = "WARNING"
phase_text grace = "GRACE"
phase_text suspended = "SUSPENDED"
phase_text invalid = "INVALID"

-- `mcp_server.state.${params.to.toLowerCase()}`.
pub state_event : RegistrationState → String
state_event RegistrationState.draft = "mcp_server.state.draft"
state_event RegistrationState.documentation_incomplete = "mcp_server.state.documentation_incomplete"
state_event RegistrationState.pending_tech_review = "mcp_server.state.pending_tech_review"
state_event RegistrationState.pending_security_review = "mcp_server.state.pending_security_review"
state_event RegistrationState.pending_test = "mcp_server.state.pending_test"
state_event RegistrationState.test_failed = "mcp_server.state.test_failed"
state_event RegistrationState.approved = "mcp_server.state.approved"
state_event RegistrationState.registered_disabled = "mcp_server.state.registered_disabled"
state_event RegistrationState.trial = "mcp_server.state.trial"
state_event RegistrationState.active = "mcp_server.state.active"
state_event RegistrationState.suspended = "mcp_server.state.suspended"
state_event RegistrationState.quarantined = "mcp_server.state.quarantined"
state_event RegistrationState.rejected = "mcp_server.state.rejected"
state_event RegistrationState.retired = "mcp_server.state.retired"

abbrev pub evidence_json : Option Redact.Fields → Json
evidence_json none = null
evidence_json (some fs) = obj fs

-- The event that records a transition.
unfoldable pub transition_event :
    ServerRow
    → Option RevisionRow
    → TransitionParams
    → OperationalState
    → RecertificationDecision
    → AuditInput
transition_event row rr params operational decision = record {
  event_type = state_event params.to;
  actor_type = actor_text params.actor_type;
  actor_id = params.actor_id;
  object_type = some "mcp_server";
  object_id = some (uuid params.server_id);
  before = object (
      ("registrationState", text (codes (registration_text row.registration_state)))
      ∷ ("operationalState", text (codes (operational_text row.operational_state)))
      ∷ []);
  after = object (
      ("code", text (codes row.code))
      ∷ ("registrationState", text (codes (registration_text params.to)))
      ∷ ("operationalState", text (codes (operational_text operational)))
      ∷ ("reason", text (codes params.reason))
      ∷ ("manifestDigest", text (codes row.manifest_digest))
      ∷ ("artifactDigest", text (codes row.artifact_digest))
      ∷ ("registrationRevisionId", uuid_or_null (revision_id rr))
      ∷ ("recertificationPhase", text (codes (phase_text decision.phase)))
      ∷ ("activationEvidence", evidence_json params.activation_evidence)
      ∷ []);
  correlation_id = params.correlation_id;
}
  where
    revision_id : Option RevisionRow → Option ℕ
    revision_id none = none
    revision_id (some r) = some r.id
