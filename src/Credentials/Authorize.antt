-- ===== src/Credentials/Authorize.antt =====
-- The row that a bearer token selects, and the tests that it has to pass
-- (`authorizeManagedServiceToken` of apps/server/src/domain/managed-service.ts).
use kajovo_cml.Prelude.{
  ℕ, ◌-◌, ◌*◌, Bool, true, false, not, ◌&&◌, ◌==◌, nat_eq, text_eq, string_eq, Option, none, some,
  is_some, String, List, [], ◌∷◌, find, option_map, leb, ltb, if◌then◌else◌, Result, ok, err, guard,
  ◌>>◌,
}
use kajovo_cml.Types.{ManagedServiceState}
use kajovo_cml.Credentials.External.{
  ExternalOperation, Manifest, match_external_api_operation, health, readiness, tls, acceptance,
  internal_error, passed, stale, failed, Probe, latest_probe,
}
use kajovo_cml.Credentials.Store.{
  CredentialRow, ServiceKind, mcp, external_api, ServiceRow, RevisionRow, TokenRow, Store, Refusal,
  environment_mismatch, principal_inactive, principal_expired, principal_token_epoch_mismatch,
  service_token_epoch_mismatch, permission_epoch_mismatch, revision_epoch_mismatch,
  revision_missing, monitoring_evidence_missing, monitoring_evidence_stale, monitoring_probe_failed,
  monitoring_internal_error, operation_context_missing, operation_policy_mismatch, is_before,
  credential_of, service_of,
}
use kajovo_cml.Credentials.Access.{is_given, assert_managed_service_runtime_available}

pub record TokenRequest : Type 0 where
  pub token_digest : ℕ
  pub audience : String
  pub environment : String
  pub required_scopes : List (List ℕ)
  pub correlation_id : ℕ
  pub operation_id : Option String
  pub request_method : Option (List ℕ)
  pub request_path : Option (List ℕ)

-- `unknown` values are none; `reason_code` none is `allow`.
pub record ManagedServiceDecision : Type 0 where
  pub allow : Bool
  pub reason_code : Option Refusal
  pub decision_id : ℕ
  pub correlation_id : ℕ
  pub service_id : Option ℕ
  pub principal_id : Option ℕ
  pub operation_id : Option String
  pub lifecycle_state : Option ManagedServiceState
  pub api_enabled : Option Bool
  pub service_token_epoch : Option ℕ
  pub principal_token_epoch : Option ℕ
  pub permission_epoch : Option ℕ
  pub active_revision_epoch : Option ℕ
  pub scopes : List (List ℕ)

-- A joined row of the query.
pub record Candidate : Type 0 where
  pub token : TokenRow
  pub credential : CredentialRow
  pub service : ServiceRow
  pub revision : Option RevisionRow

unfoldable pub revision_of : Store → ServiceRow → Option RevisionRow
revision_of s service = elim service.active_revision_id [
  | none ↦ none
  | some id ↦ find (λ (r : RevisionRow). r.id == id) s.revisions
]

abbrev pub is_wanted : ℕ → TokenRequest → TokenRow → Bool
is_wanted now r token =
    (token.lookup_digest == r.token_digest)
    && (token.audience == r.audience)
    && ltb now token.expires_at
    && not (is_some token.revoked_at)

abbrev pub joined : Store → TokenRow → Option CredentialRow → Option ServiceRow → Option Candidate
joined s token none service = none
joined s token (some credential) none = none
joined s token (some credential) (some service) = some (record {
  token = token;
  credential = credential;
  service = service;
  revision = revision_of s service;
})

abbrev pub joined_of : Store → Option TokenRow → Option Candidate
joined_of s none = none
joined_of s (some token) =
    joined s token (credential_of token.credential_id s) (service_of token.managed_service_id s)

-- `lookup_digest` is a key, so one token at most is wanted.
unfoldable pub candidate : ℕ → TokenRequest → Store → Option Candidate
unfolding revision_of credential_of service_of
candidate now r s = joined_of s (find (is_wanted now r) s.tokens)

abbrev pub validation_state_of : Option RevisionRow → Option String
validation_state_of revision = option_map (λ (r : RevisionRow). r.validation_state) revision

-- The first test of a probe that must have passed.
abbrev pub checked : ℕ → ℕ → Option Probe → Result Refusal (Unit {0})
checked now stale_after_ms none = err monitoring_evidence_missing
checked now stale_after_ms (some p) = elim p.status [
  | stale ↦ err monitoring_evidence_stale
  | failed ↦ err monitoring_probe_failed
  | passed ↦ guard (leb (now - p.checked_at) stale_after_ms) monitoring_evidence_stale
]

abbrev pub has_recent_error : ℕ → ℕ → Option Probe → Bool
has_recent_error now stale_after_ms none = false
has_recent_error now stale_after_ms (some p) = leb (now - p.checked_at) stale_after_ms

-- `removed x xs`: `xs` without one `x`, where it has one.
unfoldable pub removed : List ℕ → List (List ℕ) → Option (List (List ℕ))
removed x [] = none
removed x (y ∷ ys) =
    let rest = removed x ys in if x == y then some ys else option_map (λ zs. y ∷ zs) rest

-- The sorted copies of two lists agree just if one is a rearrangement of the other.
unfoldable pub same_sorted_strings : List (List ℕ) → List (List ℕ) → Bool
unfolding removed
same_sorted_strings [] [] = true
same_sorted_strings [] (y ∷ ys) = false
same_sorted_strings (x ∷ xs) ys = elim (removed x ys) [
  | none ↦ false
  | some rest ↦ same_sorted_strings xs rest
]

abbrev pub is_text : Option (List ℕ) → Bool
is_text none = false
is_text (some []) = false
is_text (some (c ∷ text)) = true

abbrev pub text_of : Option (List ℕ) → List ℕ
text_of none = []
text_of (some text) = text

abbrev pub is_matched : Option ExternalOperation → TokenRequest → Bool
is_matched none r = false
is_matched (some operation) r = elim r.operation_id [
  | none ↦ false
  | some id ↦
      operation.operation_id == id
      && same_sorted_strings operation.required_scopes r.required_scopes
]

unfoldable pub external_checks :
    ℕ → TokenRequest → ℕ → Manifest → List Probe → Result Refusal (Unit {0})
unfolding latest_probe match_external_api_operation same_sorted_strings
external_checks now r service_id manifest probes =
    let stale_after_ms = manifest.stale_after_seconds * 1000 in
    checked now stale_after_ms (latest_probe service_id health probes)
    >> checked now stale_after_ms (latest_probe service_id readiness probes)
    >> checked now stale_after_ms (latest_probe service_id tls probes)
    >> checked now stale_after_ms (latest_probe service_id acceptance probes)
    >> guard
        (not (has_recent_error now stale_after_ms (latest_probe service_id internal_error probes)))
        monitoring_internal_error
    >> guard (is_text r.request_method && is_text r.request_path && is_given r.operation_id)
        operation_context_missing
    >> guard
        (is_matched
          (match_external_api_operation manifest.operations (text_of r.request_method)
            (text_of r.request_path))
          r)
        operation_policy_mismatch

-- A service without a revision has been turned away before. A manifest is one that
-- `validateExternalApiManifest` accepts: that it throws on any other is left out.
abbrev pub kind_checks :
    ℕ
    → TokenRequest
    → ServiceRow
    → Option RevisionRow
    → List Probe
    → ServiceKind
    → Result Refusal (Unit {0})
kind_checks now r service revision probes mcp = ok tt
kind_checks now r service none probes external_api = err revision_missing
kind_checks now r service (some revision) probes external_api =
    external_checks now r service.id revision.manifest probes

-- Every test up to the scopes, in the source's order.
unfoldable pub token_checks : ℕ → TokenRequest → Candidate → List Probe → Result Refusal (Unit {0})
unfolding assert_managed_service_runtime_available external_checks
token_checks now r c probes =
    guard (c.token.environment == r.environment && c.service.environment == r.environment)
      environment_mismatch
    >> guard
        (c.credential.active
          && not (is_some c.credential.revoked_at)
          && not (is_some c.credential.deleted_at))
        principal_inactive
    >> guard (is_before now c.credential.expires_at) principal_expired
    >> guard (c.token.principal_token_epoch == c.credential.principal_token_epoch)
        principal_token_epoch_mismatch
    >> guard (c.token.service_token_epoch == c.service.service_token_epoch)
        service_token_epoch_mismatch
    >> guard (c.token.permission_epoch_snapshot == c.service.permission_epoch)
        permission_epoch_mismatch
    >> guard (c.token.active_revision_epoch_snapshot == c.service.active_revision_epoch)
        revision_epoch_mismatch
    >> guard (is_some c.service.active_revision_id) revision_missing
    >> assert_managed_service_runtime_available now c.service (validation_state_of c.revision)
    >> kind_checks now r c.service c.revision probes c.service.service_kind
