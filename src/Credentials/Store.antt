-- ===== src/Credentials/Store.antt =====
-- The tables behind apps/server/src/domain/auth.ts and managed-service.ts. Moments are milliseconds, and
-- identifiers and epochs are numbers.
use kajovo_cml.Prelude.{
  ℕ, Bool, true, false, not, ◌&&◌, ◌==◌, nat_eq, Option, none, some, is_some, String, List, find,
  leb, ltb,
}
use kajovo_cml.Audit.{AuditLog}
use kajovo_cml.Types.{ManagedServiceState}
use kajovo_cml.Recertification.{DateText, NumberOrNull, Reason}
use kajovo_cml.Credentials.External.{Manifest, Probe}

-- `kaja_credential`.
pub record CredentialRow : Type 0 where
  pub id : ℕ
  pub public_id : ℕ
  pub label : List ℕ
  pub secret_hash : ℕ
  pub secret_fingerprint : ℕ
  pub active : Bool
  pub revoked_at : Option ℕ
  pub deleted_at : Option ℕ
  pub expires_at : Option ℕ
  pub revocation_epoch : ℕ
  pub principal_token_epoch : ℕ

pub data ServiceKind : Type 0 where
  mcp external_api : ServiceKind

-- `managed_service`.
pub record ServiceRow : Type 0 where
  pub id : ℕ
  pub service_kind : ServiceKind
  pub legacy_mcp_server_id : Option ℕ
  pub public_hostname : Option String
  pub resource_uri : Option String
  pub environment : String
  pub enabled : Bool
  pub lifecycle_state : ManagedServiceState
  pub api_enabled : Bool
  pub active_revision_id : Option ℕ
  pub active_revision_epoch : ℕ
  pub service_token_epoch : ℕ
  pub permission_epoch : ℕ
  pub last_policy_invalidation_at : Option ℕ
  pub monitoring_enabled : Bool
  pub monitoring_profile_digest : Option String
  pub review_approved_at : DateText
  pub review_due_at : DateText
  pub review_interval_days : NumberOrNull

-- `managed_service_revision`, its manifest as `validateExternalApiManifest` returns it.
pub record RevisionRow : Type 0 where
  pub id : ℕ
  pub validation_state : String
  pub manifest : Manifest

-- `managed_service_scope`.
pub record ScopeRow : Type 0 where
  pub id : ℕ
  pub managed_service_id : ℕ
  pub scope_name : List ℕ
  pub revoked_at : Option ℕ

-- A row of `managed_service_permission` under its key; `granted` is the state GRANTED.
pub record PermissionRow : Type 0 where
  pub granted : Bool
  pub revoked_at : Option ℕ
  pub valid_from : ℕ
  pub valid_to : Option ℕ
  pub permission_version : ℕ

-- `managed_service_access_token`.
pub record TokenRow : Type 0 where
  pub lookup_digest : ℕ
  pub legacy_access_token_digest : Option ℕ
  pub key_id : ℕ
  pub fingerprint : ℕ
  pub credential_id : ℕ
  pub managed_service_id : ℕ
  pub audience : String
  pub scope_names : List (List ℕ)
  pub expires_at : ℕ
  pub revoked_at : Option ℕ
  pub last_used_at : Option ℕ
  pub credential_revocation_epoch : ℕ
  pub service_revocation_epoch : ℕ
  pub environment : String
  pub principal_token_epoch : ℕ
  pub service_token_epoch : ℕ
  pub permission_epoch_snapshot : ℕ
  pub active_revision_epoch_snapshot : ℕ

-- `kaja_permission`, and `access_token` of the servers registered before the managed services.
pub record LegacyPermissionRow : Type 0 where
  pub credential_id : ℕ
  pub server_id : ℕ
  pub revoked_at : Option ℕ

pub record LegacyTokenRow : Type 0 where
  pub lookup_digest : ℕ
  pub key_id : ℕ
  pub fingerprint : ℕ
  pub credential_id : ℕ
  pub server_id : ℕ
  pub audience : String
  pub expires_at : ℕ
  pub revoked_at : Option ℕ
  pub credential_revocation_epoch : ℕ
  pub server_revocation_epoch : ℕ

-- `managed_service_policy_event`.
pub record PolicyEvent : Type 0 where
  pub managed_service_id : ℕ
  pub event_type : String
  pub correlation_id : ℕ

-- `scopes` is kept in the order of `scope_name`. `permissions` is keyed by the credential, the service and the scope.
pub record Store : Type 0 where
  pub credentials : List CredentialRow
  pub services : List ServiceRow
  pub revisions : List RevisionRow
  pub scopes : List ScopeRow
  pub permissions : ℕ → ℕ → ℕ → Option PermissionRow
  pub tokens : List TokenRow
  pub legacy_permissions : List LegacyPermissionRow
  pub legacy_tokens : List LegacyTokenRow
  pub probes : List Probe
  pub policy_events : List PolicyEvent
  pub events : AuditLog

pub data Refusal : Type 0 where
  not_found invalid_client invalid_resource insufficient_scope stale_authorization_snapshot :
      Refusal
  invalid_token environment_mismatch principal_inactive principal_expired : Refusal
  principal_token_epoch_mismatch service_token_epoch_mismatch permission_epoch_mismatch : Refusal
  revision_epoch_mismatch revision_missing service_disabled lifecycle_inactive api_disabled :
      Refusal
  monitoring_unavailable runtime_configuration_missing : Refusal
  recertification_blocked : Option Reason → Refusal
  monitoring_evidence_missing monitoring_evidence_stale monitoring_probe_failed : Refusal
  monitoring_internal_error operation_context_missing operation_policy_mismatch : Refusal
  invalid_label credential_immutable : Refusal
  duplicate_managed_service_permission invalid_managed_service invalid_scope : Refusal

-- `is null or … > now()`.
abbrev pub is_before : ℕ → Option ℕ → Bool
is_before now none = true
is_before now (some t) = ltb now t

-- A permission that counts: granted, not revoked, and valid now.
abbrev pub is_current : ℕ → Option PermissionRow → Bool
is_current now none = false
is_current now (some p) =
    not (is_some p.revoked_at) && p.granted && leb p.valid_from now && is_before now p.valid_to

-- `coalesce(column, now())`.
abbrev pub since : ℕ → Option ℕ → Option ℕ
since now none = some now
since now (some t) = some t

abbrev pub has_credential_id : ℕ → CredentialRow → Bool
has_credential_id id c = c.id == id

abbrev pub has_service_id : ℕ → ServiceRow → Bool
has_service_id id service = service.id == id

unfoldable pub credential_of : ℕ → Store → Option CredentialRow
credential_of id s = find (has_credential_id id) s.credentials

unfoldable pub service_of : ℕ → Store → Option ServiceRow
service_of id s = find (has_service_id id) s.services
