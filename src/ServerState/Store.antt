-- ===== src/ServerState/Store.antt =====
-- The rows that apps/server/src/domain/server-state.ts reads and writes, by their columns. Times are
-- milliseconds, digests and codes texts.
use kajovo_cml.Prelude.{ℕ, Bool, Option, List, String}
use kajovo_cml.Types.{RegistrationState, OperationalState, ManagedServiceState}
use kajovo_cml.Recertification.{RecertificationPhase}
use kajovo_cml.Audit.{AuditLog}

pub record ServerRow : Type 0 where
  pub id : ℕ
  pub code : String
  pub enabled : Bool
  pub registration_state : RegistrationState
  pub operational_state : OperationalState
  pub manifest_digest : String
  pub artifact_digest : String
  pub active_revision_id : Option ℕ
  pub component_id : Option ℕ
  pub lock_version : ℕ
  pub updated_at : ℕ
  pub retired_at : Option ℕ

pub record RevisionRow : Type 0 where
  pub id : ℕ
  pub server_id : Option ℕ
  pub active : Bool
  pub validation_state : Option String
  pub approved_at : Option ℕ
  pub review_due_at : Option ℕ
  pub review_interval_days : Option ℕ
  pub created_at : ℕ

pub record ProfileRow : Type 0 where
  pub server_id : ℕ
  pub registration_revision_id : Option ℕ
  pub enabled : Bool
  pub profile_digest : Option String

pub record HistoryRow : Type 0 where
  pub server_id : ℕ
  pub registration_state : RegistrationState
  pub operational_state : OperationalState
  pub recertification_phase : RecertificationPhase
  pub reason : String
  pub correlation_id : ℕ
  pub recorded_at : ℕ

pub data ApiState : Type 0 where
  enabled disabled : ApiState

pub record ManagedRow : Type 0 where
  pub legacy_mcp_server_id : Option ℕ
  pub enabled : Bool
  pub lifecycle_state : ManagedServiceState
  pub operational_state : OperationalState
  pub api_state : ApiState
  pub api_disabled_reason : Option String
  pub last_policy_invalidation_at : ℕ
  pub lock_version : ℕ
  pub updated_at : ℕ

pub data ComponentLifecycle : Type 0 where
  draft review approved active suspended quarantined retired deregistered : ComponentLifecycle

pub data ActivationState : Type 0 where
  inactive ready ready_for_activation active blocked : ActivationState
  enable_requested disable_requested disable_unconfirmed : ActivationState

pub record ComponentRow : Type 0 where
  pub id : ℕ
  pub enabled : Bool
  pub ingress_enabled : Bool
  pub pulse_enabled : Bool
  pub egress_enabled : Bool
  pub lifecycle_state : ComponentLifecycle
  pub activation_state : ActivationState
  pub operational_state : OperationalState
  pub lock_version : ℕ

pub record Store : Type 0 where
  pub servers : List ServerRow
  pub revisions : List RevisionRow
  pub profiles : List ProfileRow
  pub histories : List HistoryRow
  pub managed : List ManagedRow
  pub components : List ComponentRow
  pub audit : AuditLog
