-- ===== src/ComponentAuth/Decide.antt =====
-- The decision on a call of a component (apps/server/src/domain/component-auth.ts): the joined row
-- and the ladder of its conditions.
use kajovo_cml.Prelude.{
  ℕ, Bool, true, false, not, ◌&&◌, ◌||◌, Option, none, some, List, [], ◌∷◌, ◌++◌, map, String, ◌==◌,
  nat_eq, string_eq, text_eq, option_beq, is_some, any, find, leb, if◌then◌else◌, Result, ok, ◌>>=◌,
  ◌>>◌, guard, or_fail,
}
use kajovo_cml.Security.Text.{codes, lower}
use kajovo_cml.ComponentAuth.Store.{
  TokenRow, PrincipalRow, CallComponent, SuspensionRow, PermissionRow, GenerationComponent,
  GenerationJob, AuthStore,
}
use kajovo_cml.ComponentAuth.Route.{route_matches}

pub data AuthorizationReason : Type 0 where
  allowed invalid_token expired_token revoked_token insufficient_scope invalid_audience :
      AuthorizationReason
  component_disabled component_quarantined route_denied catalog_incompatible : AuthorizationReason
  authorization_suspended : AuthorizationReason

pub record CallParams : Type 0 where
  pub token_digest : ℕ
  pub token_fingerprint : String
  pub audience : List ℕ
  pub host : List ℕ
  pub scope : String
  pub route : List ℕ
  pub correlation_id : ℕ
  pub allow_generation_probe : Bool

-- A row of the join; the digest, the ids and the host name are unique in their tables.
pub record CallRow : Type 0 where
  pub token : TokenRow
  pub principal : PrincipalRow
  pub source : Option CallComponent
  pub target : CallComponent

-- `toLowerCase` and SQL's `lower` on the ASCII names of hosts.
abbrev pub lower_case : List ℕ → List ℕ
lower_case s = map lower s

abbrev pub is_target : TokenRow → List ℕ → CallComponent → Bool
is_target token host c =
    (lower_case c.hostname == lower_case host)
    && (not (is_some token.target_component_id) || option_beq token.target_component_id (some c.id))

unfoldable pub call_row : AuthStore → ℕ → List ℕ → Result AuthorizationReason CallRow
unfolding lower
call_row db digest host = do
  token ← or_fail (find (λ (t : TokenRow). t.lookup_digest == digest) db.tokens) invalid_token
  principal ←
      or_fail (find (λ (p : PrincipalRow). p.id == token.source_principal_id) db.principals)
        invalid_token
  target ← or_fail (find (is_target token host) db.components) invalid_token
  ok (record {
    token = token;
    principal = principal;
    source =
        find (λ (c : CallComponent). option_beq c.principal_id (some principal.id)) db.components;
    target = target;
  })

abbrev pub source_id : CallRow → Option ℕ
source_id row = elim row.source [ none ↦ none | some c ↦ some c.id ]

-- `join generation_job job on job.id=gc.job_id where … job.state in (states)`.
abbrev pub in_job : AuthStore → List String → ℕ → Bool
in_job db states job_id =
    any (λ (job : GenerationJob). (job.id == job_id) && any (λ (s : String). s == job.state) states)
      db.generation_jobs

abbrev pub running_states : List String
running_states =
    "IMPLEMENTING" ∷ "INTEGRATING" ∷ "VALIDATING" ∷ "CML_CONFORMANCE" ∷ "ACTIVATING" ∷ []

pub generation_self_probe : AuthStore → CallParams → CallRow → Bool
generation_self_probe db params row =
    params.allow_generation_probe
    && option_beq (source_id row) (some row.target.id)
    && (row.target.registration_type == "INTERNAL_GENERATED")
    && any
        (λ (gc : GenerationComponent).
          (gc.component_id == row.target.id) && in_job db running_states gc.job_id)
        db.generation_components

pub generation_dependency_probe : AuthStore → CallRow → Bool
generation_dependency_probe db row =
    is_some row.source
    && (row.target.registration_type == "INTERNAL_GENERATED")
    && any
        (λ (source_gc : GenerationComponent).
          option_beq (source_id row) (some source_gc.component_id)
          && in_job db ("CML_CONFORMANCE" ∷ []) source_gc.job_id
          && any
              (λ (target_gc : GenerationComponent).
                (target_gc.job_id == source_gc.job_id) && (target_gc.component_id == row.target.id))
              db.generation_components)
        db.generation_components

pub preactivation_probe : AuthStore → CallParams → CallRow → Bool
unfolding generation_self_probe generation_dependency_probe
preactivation_probe db params row =
    generation_self_probe db params row || generation_dependency_probe db row

-- `startsWith`.
unfoldable pub starts_with : List ℕ → List ℕ → Bool
starts_with [] s = true
starts_with (p ∷ ps) [] = false
starts_with (p ∷ ps) (c ∷ s) = p == c && starts_with ps s

abbrev pub one_of : List String → String → Bool
one_of values s = any (λ (v : String). v == s) values

pub control_callback : CallParams → CallRow → Bool
unfolding starts_with
control_callback params row =
    (one_of ("component.control.ack" ∷ "component.state.query" ∷ "component.heartbeat" ∷ [])
        params.scope
      && one_of ("ENABLE_REQUESTED" ∷ "DISABLE_REQUESTED" ∷ "DISABLE_UNCONFIRMED" ∷ [])
          row.target.activation_state)
    || ((row.principal.kind == "PLATFORM")
        && (starts_with (codes "platform.control.") (codes params.scope)
            || params.scope == "platform.e2e.execute"))

abbrev pub is_revoked : CallRow → Bool
is_revoked row =
    is_some row.token.revoked_at
    || not (row.token.issued_revocation_epoch == row.principal.revocation_epoch)

abbrev pub is_suspended : AuthStore → CallRow → Bool
is_suspended db row =
    any (λ (s : SuspensionRow). (s.principal_id == row.principal.id) && not (is_some s.resumed_at))
      db.suspensions

abbrev pub fits_audience : CallParams → CallRow → Bool
fits_audience params row =
    (lower_case row.target.hostname == lower_case params.host)
    && (lower_case params.audience == codes "https://" ++ lower_case row.target.hostname)
    && (row.token.audience == codes "*"
        || lower_case row.token.audience == lower_case params.audience)

abbrev pub is_quarantined : CallRow → Bool
is_quarantined row =
    row.target.lifecycle_state == "QUARANTINED"
    || row.target.operational_state == "QUARANTINED"
    || elim row.source [ none ↦ false | some c ↦ c.lifecycle_state == "QUARANTINED" ]

abbrev pub is_open : CallRow → Bool
is_open row =
    row.target.enabled
    && row.target.ingress_enabled
    && elim row.source [ none ↦ true | some c ↦ c.enabled ]

abbrev pub has_scope : CallParams → CallRow → Bool
has_scope params row =
    any (λ (scope : String). scope == "*" || scope == params.scope) row.token.scope_names

-- The live permissions of the source for the target and the scope: those of its component, or of the
-- principal where it has none.
pub is_scoped : ℕ → ℕ → String → PermissionRow → Bool
is_scoped source target scope p =
    (p.source_id == source)
    && (p.target_component_id == target)
    && (p.scope_name == scope)
    && not (is_some p.revoked_at)

unfoldable pub permits : AuthStore → CallParams → CallRow → (List ℕ → Bool) → Bool
unfolding is_scoped
permits db params row covers = elim row.source [
  | some c ↦
      any
        (λ (p : PermissionRow).
          is_scoped c.id row.target.id params.scope p && covers p.route_pattern)
        db.component_permissions
  | none ↦
      any
        (λ (p : PermissionRow).
          is_scoped row.principal.id row.target.id params.scope p && covers p.route_pattern)
        db.principal_permissions
]

abbrev pub scoped_permission : AuthStore → CallParams → CallRow → Bool
scoped_permission db params row = permits db params row (λ pattern. true)

abbrev pub route_permission : AuthStore → CallParams → CallRow → Bool
route_permission db params row =
    permits db params row (λ pattern. route_matches pattern params.route)

-- The ladder of `authorizeComponentCall`, in its order.
unfoldable pub decide : AuthStore → ℕ → CallParams → CallRow → Result AuthorizationReason (Unit {0})
unfolding preactivation_probe control_callback permits route_matches lower
decide db now params row = do
  let probe = preactivation_probe db params row
  guard (not (is_revoked row)) revoked_token
  guard (not (leb row.token.expires_at now)) expired_token
  guard (not (is_suspended db row)) authorization_suspended
  guard (row.principal.status == "ACTIVE" || probe)
      (if row.principal.status == "QUARANTINED" then component_quarantined else component_disabled)
  guard (fits_audience params row) invalid_audience
  guard (not (is_quarantined row)) component_quarantined
  guard (is_open row || control_callback params row || probe) component_disabled
  guard (has_scope params row) insufficient_scope
  guard (scoped_permission db params row) insufficient_scope
  guard (route_permission db params row) route_denied
