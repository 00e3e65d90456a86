-- ===== src/Credentials/Decision.antt =====
-- The decision on a bearer token: `authorizeManagedServiceToken` of
-- apps/server/src/domain/managed-service.ts, and `validateBearer` of auth.ts.
use kajovo_cml.Prelude.{
  ℕ, ◌+◌, Bool, false, not, ◌==◌, nat_eq, text_eq, string_eq, Option, none, some, is_some, String,
  List, [], ◌∷◌, all, any, update_where, ltb, if◌then◌else◌, Result, ok, err,
}
use kajovo_cml.Security.Text.{codes}
use kajovo_cml.Credentials.Store.{TokenRow, Store, Refusal, invalid_token, insufficient_scope}
use kajovo_cml.Credentials.Access.{current_managed_service_scopes}
use kajovo_cml.Credentials.Authorize.{
  TokenRequest, ManagedServiceDecision, Candidate, candidate, token_checks,
}

-- The row of the query has the epoch of the token as its `service_token_epoch`.
abbrev decision_on :
    ℕ → TokenRequest → Candidate → Option Refusal → List (List ℕ) → ManagedServiceDecision
decision_on decision_id r c reason scopes = record {
  allow = not (is_some reason);
  reason_code = reason;
  decision_id = decision_id;
  correlation_id = r.correlation_id;
  service_id = some c.token.managed_service_id;
  principal_id = some c.token.credential_id;
  operation_id = r.operation_id;
  lifecycle_state = some c.service.lifecycle_state;
  api_enabled = some c.service.api_enabled;
  service_token_epoch = some c.token.service_token_epoch;
  principal_token_epoch = some c.credential.principal_token_epoch;
  permission_epoch = some c.service.permission_epoch;
  active_revision_epoch = some c.service.active_revision_epoch;
  scopes = scopes;
}

abbrev unknown_token : ℕ → TokenRequest → ManagedServiceDecision
unknown_token decision_id r = record {
  allow = false;
  reason_code = some invalid_token;
  decision_id = decision_id;
  correlation_id = r.correlation_id;
  service_id = none;
  principal_id = none;
  operation_id = r.operation_id;
  lifecycle_state = none;
  api_enabled = none;
  service_token_epoch = none;
  principal_token_epoch = none;
  permission_epoch = none;
  active_revision_epoch = none;
  scopes = [];
}

-- The moment of the last use is kept to the minute.
abbrev pub used : ℕ → TokenRow → TokenRow
used now token = record token {
  last_used_at = elim token.last_used_at [
    | none ↦ some now
    | some t ↦ if ltb (t + 60000) now then some now else some t
  ];
}

abbrev pub touched : ℕ → ℕ → Store → Store
touched now digest s = record s {
  tokens = update_where (λ (t : TokenRow). t.lookup_digest == digest) (used now) s.tokens;
}

abbrev pub has_all : List (List ℕ) → List (List ℕ) → Bool
has_all scopes required = all (λ (x : List ℕ). any (λ (y : List ℕ). x == y) scopes) required

abbrev pub decided :
    ℕ
    → ℕ
    → TokenRequest
    → Candidate
    → Store
    → Result Refusal (Unit {0})
    → ManagedServiceDecision × Store
decided now decision_id r c s (err e) = (decision_on decision_id r c (some e) [], s)
decided now decision_id r c s (ok done) =
    let scopes =
      current_managed_service_scopes now s c.token.credential_id c.token.managed_service_id in
    if has_all scopes r.required_scopes
    then (decision_on decision_id r c none scopes, touched now r.token_digest s)
    else (decision_on decision_id r c (some insufficient_scope) scopes, s)

abbrev pub decided_of :
    ℕ → ℕ → TokenRequest → Store → Option Candidate → ManagedServiceDecision × Store
decided_of now decision_id r s none = (unknown_token decision_id r, s)
decided_of now decision_id r s (some c) =
    decided now decision_id r c s (token_checks now r c s.probes)

unfoldable pub authorize_managed_service_token :
    ℕ → ℕ → TokenRequest → Store → ManagedServiceDecision × Store
unfolding candidate token_checks current_managed_service_scopes
authorize_managed_service_token now decision_id r s =
    decided_of now decision_id r s (candidate now r s)

-- `validateBearer` up to the names of the server; `resource` is `resourceFor` of the host.
unfoldable pub validate_bearer :
    ℕ → ℕ → ℕ → ℕ → String → Store → (Option Refusal × Option ℕ × Option ℕ) × Store
unfolding authorize_managed_service_token
validate_bearer now decision_id digest correlation_id resource s =
    let answer =
      authorize_managed_service_token now decision_id
        (record {
          token_digest = digest;
          audience = resource;
          environment = "production";
          required_scopes = codes "mcp.invoke" ∷ [];
          correlation_id = correlation_id;
          operation_id = some "mcp.invoke";
          request_method = none;
          request_path = none;
        })
        s in
    ((answer.0.reason_code, answer.0.principal_id, answer.0.service_id), answer.1)
