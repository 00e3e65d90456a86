-- ===== src/ComponentAuth/Store.antt =====
-- The tables that `authorizeComponentCall` reads (apps/server/src/domain/component-auth.ts). Texts
-- that it compares without regard to case, and routes, are lists of code units.
use kajovo_cml.Prelude.{ℕ, Bool, Option, List, String}
use kajovo_cml.Audit.{AuditLog}

-- `principal_access_token`.
pub record TokenRow : Type 0 where
  pub lookup_digest : ℕ
  pub fingerprint : String
  pub source_principal_id : ℕ
  pub target_component_id : Option ℕ
  pub audience : List ℕ
  pub scope_names : List String
  pub issued_revocation_epoch : ℕ
  pub expires_at : ℕ
  pub revoked_at : Option ℕ
  pub last_used_at : Option ℕ

-- `principal`.
pub record PrincipalRow : Type 0 where
  pub id : ℕ
  pub public_id : String
  pub kind : String
  pub status : String
  pub revocation_epoch : ℕ

-- `component`.
pub record CallComponent : Type 0 where
  pub id : ℕ
  pub code : String
  pub hostname : List ℕ
  pub principal_id : Option ℕ
  pub registration_type : String
  pub enabled : Bool
  pub ingress_enabled : Bool
  pub activation_state : String
  pub lifecycle_state : String
  pub operational_state : String
  pub policy_epoch : ℕ

-- `principal_permission_suspension`.
pub record SuspensionRow : Type 0 where
  pub principal_id : ℕ
  pub resumed_at : Option ℕ

-- `component_permission`, and `principal_component_permission`, where the source is a principal.
pub record PermissionRow : Type 0 where
  pub source_id : ℕ
  pub target_component_id : ℕ
  pub scope_name : String
  pub route_pattern : List ℕ
  pub revoked_at : Option ℕ

-- `generation_component` and `generation_job`.
pub record GenerationComponent : Type 0 where
  pub component_id : ℕ
  pub job_id : ℕ

pub record GenerationJob : Type 0 where
  pub id : ℕ
  pub state : String

pub record AuthStore : Type 0 where
  pub tokens : List TokenRow
  pub principals : List PrincipalRow
  pub components : List CallComponent
  pub suspensions : List SuspensionRow
  pub component_permissions : List PermissionRow
  pub principal_permissions : List PermissionRow
  pub generation_components : List GenerationComponent
  pub generation_jobs : List GenerationJob
  pub audit : AuditLog
