-- ===== src/Credentials/Issue.antt =====
-- `issueAccessToken` of apps/server/src/domain/auth.ts.
use kajovo_cml.Prelude.{
  ℕ, ◌+◌, ◌*◌, Bool, not, ◌&&◌, ◌==◌, nat_eq, text_eq, string_eq, Option, none, some, is_some,
  String, List, [], ◌∷◌, any, find, option_beq, Result, ok, err, guard, ◌>>=◌, ◌>>◌, or_fail,
}
use kajovo_cml.Security.Redact.{Items, null, num, text, arr, nil, cons, object}
use kajovo_cml.Security.Redact
use kajovo_cml.Security.Text.{codes}
use kajovo_cml.Audit.{uuid, append_audit}
use kajovo_cml.Credentials.Store.{
  CredentialRow, ServiceRow, ScopeRow, TokenRow, LegacyTokenRow, Store, Refusal, invalid_client,
  invalid_resource, insufficient_scope, stale_authorization_snapshot, is_before, credential_of,
  service_of,
}
use kajovo_cml.Credentials.Access.{
  assert_managed_service_runtime_available, is_granted, current_managed_service_scopes,
}
use kajovo_cml.Credentials.Authorize.{revision_of, validation_state_of}

-- `issueOpaqueSecret`, with the digest that `hmacToken` makes of it, which no other token has.
pub record OpaqueSecret : Type 0 where
  pub value : List ℕ
  pub fingerprint : ℕ
  pub digest : ℕ

pub record IssueRequest : Type 0 where
  pub client_id : ℕ
  pub client_secret : List ℕ
  pub resource : String
  pub key_id : ℕ
  pub correlation_id : ℕ

-- `scope` joins the scopes by blanks.
pub record TokenAnswer : Type 0 where
  pub access_token : List ℕ
  pub token_type : String
  pub expires_in : ℕ
  pub scope : List (List ℕ)

abbrev pub has_public_id : ℕ → CredentialRow → Bool
has_public_id id c = (c.public_id == id) && not (is_some c.deleted_at)

abbrev pub has_resource : String → ServiceRow → Bool
has_resource resource service = option_beq service.resource_uri (some resource)

abbrev ttl_seconds : ℕ
ttl_seconds = 15 * 60

abbrev names_granted : ℕ → Store → ℕ → ℕ → List (List ℕ) → ScopeRow → Bool
names_granted now s credential_id service_id names scope =
    is_granted now s credential_id service_id scope
    && any (λ (x : List ℕ). x == scope.scope_name) names

-- The `where` of the insert, on the rows as they are then.
abbrev pub is_fresh_snapshot :
    ℕ → Store → CredentialRow → ServiceRow → List (List ℕ) → CredentialRow → ServiceRow → Bool
is_fresh_snapshot now s credential service scopes kc ms =
    kc.active
    && not (is_some kc.deleted_at)
    && not (is_some kc.revoked_at)
    && is_before now kc.expires_at
    && (kc.revocation_epoch == credential.revocation_epoch)
    && (kc.principal_token_epoch == credential.principal_token_epoch)
    && (ms.service_token_epoch == service.service_token_epoch)
    && (ms.permission_epoch == service.permission_epoch)
    && (ms.active_revision_epoch == service.active_revision_epoch)
    && (ms.environment == service.environment)
    && ms.api_enabled
    && ms.enabled
    && is_some ms.active_revision_id
    && any (names_granted now s kc.id ms.id scopes) s.scopes

abbrev pub new_token :
    ℕ → IssueRequest → OpaqueSecret → List (List ℕ) → CredentialRow → ServiceRow → TokenRow
new_token now r secret scopes kc ms = record {
  lookup_digest = secret.digest;
  legacy_access_token_digest = elim ms.legacy_mcp_server_id [
    | none ↦ none
    | some id ↦ some secret.digest
  ];
  key_id = r.key_id;
  fingerprint = secret.fingerprint;
  credential_id = kc.id;
  managed_service_id = ms.id;
  audience = r.resource;
  scope_names = scopes;
  expires_at = now + ttl_seconds * 1000;
  revoked_at = none;
  last_used_at = none;
  credential_revocation_epoch = kc.revocation_epoch;
  service_revocation_epoch = ms.service_token_epoch;
  environment = ms.environment;
  principal_token_epoch = kc.principal_token_epoch;
  service_token_epoch = ms.service_token_epoch;
  permission_epoch_snapshot = ms.permission_epoch;
  active_revision_epoch_snapshot = ms.active_revision_epoch;
}

abbrev with_legacy :
    ℕ
    → IssueRequest
    → OpaqueSecret
    → CredentialRow
    → ServiceRow
    → Option ℕ
    → List LegacyTokenRow
    → List LegacyTokenRow
with_legacy now r secret credential service none rows = rows
with_legacy now r secret credential service (some server_id) rows =
    record {
      lookup_digest = secret.digest;
      key_id = r.key_id;
      fingerprint = secret.fingerprint;
      credential_id = credential.id;
      server_id = server_id;
      audience = r.resource;
      expires_at = now + ttl_seconds * 1000;
      revoked_at = none;
      credential_revocation_epoch = credential.revocation_epoch;
      server_revocation_epoch = service.service_token_epoch;
    }
    ∷ rows

pub texts : List (List ℕ) → Items
texts [] = nil
texts (x ∷ xs) = cons (text x) (texts xs)

-- The row, the row for the older servers and the event.
abbrev pub issued :
    ℕ
    → IssueRequest
    → OpaqueSecret
    → List (List ℕ)
    → CredentialRow
    → ServiceRow
    → CredentialRow
    → ServiceRow
    → Store
    → Store
issued now r secret scopes credential service kc ms s = record s {
  tokens = new_token now r secret scopes kc ms ∷ s.tokens;
  legacy_tokens =
      with_legacy now r secret credential service service.legacy_mcp_server_id s.legacy_tokens;
  events = append_audit s.events (record {
    event_type = "access_token.issued";
    actor_type = "kaja";
    actor_id = some (uuid credential.id);
    object_type = some "managed_service";
    object_id = some (uuid service.id);
    before = null;
    after = object (
        ("resource", text (codes r.resource))
        ∷ ("fingerprint", num secret.fingerprint)
        ∷ ("expiresIn", num ttl_seconds)
        ∷ ("scopes", arr (texts scopes))
        ∷ (
          "snapshot",
          object (
              ("credentialRevocationEpoch", Redact.uuid credential.revocation_epoch)
              ∷ ("principalTokenEpoch", Redact.uuid credential.principal_token_epoch)
              ∷ ("serviceTokenEpoch", Redact.uuid service.service_token_epoch)
              ∷ ("permissionEpoch", Redact.uuid service.permission_epoch)
              ∷ ("activeRevisionEpoch", num service.active_revision_epoch)
              ∷ []),
        )
        ∷ []);
    correlation_id = r.correlation_id;
  });
}

abbrev pub answer_of : OpaqueSecret → List (List ℕ) → TokenAnswer
answer_of secret scopes = record {
  access_token = secret.value;
  token_type = "Bearer";
  expires_in = ttl_seconds;
  scope = scopes;
}

abbrev pub is_usable_client : ℕ → CredentialRow → Bool
is_usable_client now credential =
    credential.active && not (is_some credential.revoked_at) && is_before now credential.expires_at

-- The insert joins the rows as they are then.
abbrev pub insert_token :
    ℕ
    → IssueRequest
    → OpaqueSecret
    → Store
    → CredentialRow
    → ServiceRow
    → List (List ℕ)
    → CredentialRow
    → ServiceRow
    → Result Refusal (TokenAnswer × Store)
insert_token now r secret s credential service scopes kc ms =
    guard (is_fresh_snapshot now s credential service scopes kc ms) stale_authorization_snapshot
    >> ok (answer_of secret scopes, issued now r secret scopes credential service kc ms s)

abbrev pub insert_for :
    ℕ
    → IssueRequest
    → OpaqueSecret
    → Store
    → CredentialRow
    → ServiceRow
    → List (List ℕ)
    → CredentialRow
    → Result Refusal (TokenAnswer × Store)
insert_for now r secret s credential service scopes kc =
    or_fail (service_of service.id s) stale_authorization_snapshot
    >>= insert_token now r secret s credential service scopes kc

unfoldable pub issue_with_scopes :
    ℕ
    → IssueRequest
    → OpaqueSecret
    → Store
    → CredentialRow
    → ServiceRow
    → List (List ℕ)
    → Result Refusal (TokenAnswer × Store)
unfolding credential_of service_of
issue_with_scopes now r secret s credential service [] = err insufficient_scope
issue_with_scopes now r secret s credential service (scope ∷ scopes) =
    or_fail (credential_of credential.id s) stale_authorization_snapshot
    >>= insert_for now r secret s credential service (scope ∷ scopes)

unfoldable pub issue_for :
    ℕ
    → IssueRequest
    → OpaqueSecret
    → Store
    → CredentialRow
    → ServiceRow
    → Result Refusal (TokenAnswer × Store)
unfolding assert_managed_service_runtime_available current_managed_service_scopes revision_of
    issue_with_scopes
issue_for now r secret s credential service =
    assert_managed_service_runtime_available now service
      (validation_state_of (revision_of s service))
    >> issue_with_scopes now r secret s credential service
        (current_managed_service_scopes now s credential.id service.id)

-- `verify` is `verifyPasswordLikeSecret`.
module _ (verify : ℕ → List ℕ → Bool) where
  unfoldable pub issue_to :
      ℕ → IssueRequest → OpaqueSecret → Store → CredentialRow → Result Refusal (TokenAnswer × Store)
  unfolding issue_for
  issue_to now r secret s credential =
      guard (is_usable_client now credential) invalid_client
      >> (guard (verify credential.secret_hash r.client_secret) invalid_client
          >> (or_fail (find (has_resource r.resource) s.services) invalid_resource
              >>= issue_for now r secret s credential))

  unfoldable pub issue_access_token :
      ℕ → IssueRequest → OpaqueSecret → Store → Result Refusal (TokenAnswer × Store)
  unfolding issue_to
  issue_access_token now r secret s =
      or_fail (find (has_public_id r.client_id) s.credentials) invalid_client
      >>= issue_to now r secret s
