-- ===== src/ServerState/Update.antt =====
-- The operations of apps/server/src/domain/server-state.ts. Each runs in a transaction: an error
-- leaves the tables as they were.
pub mod Effects
pub mod Mirror
pub mod Runs
mod Tests
use kajovo_cml.Prelude.{
  ℕ, ◌+◌, Bool, true, false, not, ◌&&◌, Option, none, some, List, [], ◌∷◌, String, ◌==◌, nat_eq,
  if◌then◌else◌, bool_beq, find, update_where, option_beq, or_else, Result, ok, err, ◌>>=◌, ◌>>◌,
  or_fail, map,
}
use kajovo_cml.Types.{
  RegistrationState, OperationalState, ManagedServiceState, registration_text, operational_text,
  registration_eq, operational_eq,
}
use kajovo_cml.Recertification.{
  RecertificationDecision, RecertificationPhase, valid, warning, grace, suspended, invalid,
  evaluate_recertification,
}
use kajovo_cml.Security.Redact
use kajovo_cml.Security.Redact.{Json, null, text, bool, obj, object, uuid_or_null}
use kajovo_cml.Security.Text.{codes}
use kajovo_cml.Audit.{Ident, uuid, AuditInput, append_audit}
use kajovo_cml.ServerState.Lifecycle.{operational_state_for, managed_lifecycle_for, serves}
use kajovo_cml.ServerState.Store.{
  ServerRow, RevisionRow, HistoryRow, ManagedRow, ComponentRow, Store, ApiState, ComponentLifecycle,
  ActivationState,
}
use kajovo_cml.ServerState.Rows.{
  moved_server, moved_managed, moved_component, phase_text, transition_event,
}
use kajovo_cml.ServerState.Checks.{
  TransitionError, not_found, TransitionParams, ActorType, admin, actor_text, Clocks, revision_of,
  recertification_input, check_transition,
}

-- The writes of `transitionServerState`, once the guards have passed.
pub write_transition :
    Clocks → Store → ServerRow → TransitionParams → RecertificationDecision → Store
write_transition clocks db row params decision =
    let operational = operational_state_for params.to params.operational_state in
    record db {
      servers =
          update_where (λ (ms : ServerRow). ms.id == params.server_id)
            (moved_server clocks params.to operational) db.servers;
      managed =
          update_where
            (λ (m : ManagedRow). option_beq m.legacy_mcp_server_id (some params.server_id))
            (moved_managed clocks params.to operational params.reason) db.managed;
      components =
          update_where (λ (c : ComponentRow). option_beq (some c.id) row.component_id)
            (moved_component params.to operational) db.components;
      histories =
          record {
            server_id = params.server_id;
            registration_state = params.to;
            operational_state = operational;
            recertification_phase = decision.phase;
            reason = params.reason;
            correlation_id = params.correlation_id;
            recorded_at = clocks.database;
          }
          ∷ db.histories;
      audit =
          append_audit db.audit
            (transition_event row (revision_of db row) params operational decision);
    }

pub record Transition : Type 0 where
  pub store : Store
  pub from : RegistrationState
  pub to : RegistrationState
  pub operational_state : OperationalState
  pub recertification : RecertificationDecision

-- The row `for update`.
abbrev pub server_row : Store → ℕ → Option ServerRow
server_row db server_id = find (λ (ms : ServerRow). ms.id == server_id) db.servers

pub transition_server_state : Clocks → Store → TransitionParams → Result TransitionError Transition
transition_server_state clocks db params = do
  row ← or_fail (server_row db params.server_id) not_found
  let decision =
      evaluate_recertification (recertification_input (revision_of db row)) clocks.process
  check_transition db row params decision
  ok (record {
    store = write_transition clocks db row params decision;
    from = row.registration_state;
    to = params.to;
    operational_state = operational_state_for params.to params.operational_state;
    recertification = decision;
  })

-- The transition that `setServerEnabled` asks for.
pub enabling_params : Ident → ℕ → ℕ → Bool → TransitionParams
enabling_params actor_id correlation_id server_id enabled = record {
  server_id = server_id;
  to = if enabled then RegistrationState.trial else RegistrationState.registered_disabled;
  actor_type = admin;
  actor_id = some actor_id;
  reason = if enabled then "manual_trial_started" else "manual_disable";
  correlation_id = correlation_id;
  activation_evidence = none;
  recovery_approved = false;
  operational_state = none;
}

-- `setServerEnabled`, with the states that it returns.
pub set_server_enabled :
    Clocks
    → Store
    → Ident
    → ℕ
    → ℕ
    → Bool
    → Result TransitionError (Store × RegistrationState × OperationalState)
set_server_enabled clocks db actor_id correlation_id server_id enabled = do
  row ← or_fail (server_row db server_id) not_found
  let moved = do
    transition ←
        transition_server_state clocks db
          (enabling_params actor_id correlation_id server_id enabled)
    ok (transition.store, transition.to, transition.operational_state)
  (if bool_beq row.enabled enabled
      then ok (db, row.registration_state, row.operational_state)
      else moved)

pub computed_event :
    ServerRow → OperationalState → String → ℕ → RecertificationDecision → AuditInput
computed_event row state reason correlation_id decision = record {
  event_type = "mcp_server.operational_state.changed";
  actor_type = "system";
  actor_id = none;
  object_type = some "mcp_server";
  object_id = some (uuid row.id);
  before = null;
  after = object (
      ("code", text (codes row.code))
      ∷ ("operationalState", text (codes (operational_text state)))
      ∷ ("reason", text (codes reason))
      ∷ ("manifestDigest", text (codes row.manifest_digest))
      ∷ ("artifactDigest", text (codes row.artifact_digest))
      ∷ ("recertificationPhase", text (codes (phase_text decision.phase)))
      ∷ []);
  correlation_id = correlation_id;
}

-- `where id=$1 and operational_state is distinct from $2`.
abbrev pub is_restated : ℕ → OperationalState → ServerRow → Bool
is_restated server_id state ms = (ms.id == server_id) && not (ms.operational_state == state)

pub restated_server : Clocks → OperationalState → ServerRow → ServerRow
restated_server clocks state ms = record ms {
  operational_state = state;
  updated_at = clocks.database;
  lock_version = ms.lock_version + 1;
}

-- `setComputedOperationalState`; the record `params` is spread over the arguments.
pub set_computed_operational_state :
    Clocks → Store → ℕ → OperationalState → String → ℕ → RecertificationDecision → Store
set_computed_operational_state clocks db server_id state reason correlation_id decision =
    elim (find (is_restated server_id state) db.servers) [
      | none ↦ db
      | some row ↦ record db {
        servers =
            update_where (is_restated server_id state) (restated_server clocks state) db.servers;
        histories =
            record {
              server_id = server_id;
              registration_state = row.registration_state;
              operational_state = state;
              recertification_phase = decision.phase;
              reason = reason;
              correlation_id = correlation_id;
              recorded_at = clocks.database;
            }
            ∷ db.histories;
        audit = append_audit db.audit (computed_event row state reason correlation_id decision);
      }
    ]
