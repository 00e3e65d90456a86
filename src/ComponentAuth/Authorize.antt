-- ===== src/ComponentAuth/Authorize.antt =====
-- `authorizeComponentCall` of apps/server/src/domain/component-auth.ts as one transaction.
pub mod Grants
mod Tests
use kajovo_cml.Prelude.{
  ℕ, Bool, true, false, Option, none, some, List, [], ◌∷◌, String, ◌==◌, nat_eq, string_eq,
  option_beq, ◌&&◌, if◌then◌else◌, update_where, Result, ok, err,
}
use kajovo_cml.Security.Redact.{null, text, uuid, object, text_or_null}
use kajovo_cml.Security.Text.{codes}
use kajovo_cml.Audit
use kajovo_cml.Audit.{Ident, AuditInput, append_audit}
use kajovo_cml.ComponentAuth.Store.{TokenRow, CallComponent, AuthStore}
use kajovo_cml.ComponentAuth.Decide.{
  AuthorizationReason, allowed, invalid_token, expired_token, revoked_token, insufficient_scope,
  invalid_audience, component_disabled, component_quarantined, route_denied, catalog_incompatible,
  authorization_suspended, CallParams, CallRow, call_row, source_id, decide,
}

pub record AuthorizationDecision : Type 0 where
  pub allow : Bool
  pub reason_code : AuthorizationReason
  pub decision_id : ℕ
  pub correlation_id : ℕ
  pub source_principal_id : Option ℕ
  pub source_principal_kind : Option String
  pub source_component_id : Option ℕ
  pub target_component_id : Option ℕ
  pub source_client_id : Option String
  pub source_component_code : Option String
  pub target_component_code : Option String
  pub target_hostname : Option (List ℕ)
  pub audience : Option (List ℕ)
  pub scopes : List String
  pub policy_epoch : Option ℕ
  pub token_fingerprint : Option String

-- `denied` without further values.
unfoldable pub denied : AuthorizationReason → ℕ → ℕ → AuthorizationDecision
denied reason correlation decision_id = record {
  allow = false;
  reason_code = reason;
  decision_id = decision_id;
  correlation_id = correlation;
  source_principal_id = none;
  source_principal_kind = none;
  source_component_id = none;
  target_component_id = none;
  source_client_id = none;
  source_component_code = none;
  target_component_code = none;
  target_hostname = none;
  audience = none;
  scopes = [];
  policy_epoch = none;
  token_fingerprint = none;
}

-- The decision with the values of `base` in it.
unfoldable pub with_base :
    Bool → AuthorizationReason → CallParams → ℕ → CallRow → AuthorizationDecision
with_base allow reason params decision_id row = record {
  allow = allow;
  reason_code = reason;
  decision_id = decision_id;
  correlation_id = params.correlation_id;
  source_principal_id = some row.principal.id;
  source_principal_kind = some row.principal.kind;
  source_component_id = source_id row;
  target_component_id = some row.target.id;
  source_client_id = some row.principal.public_id;
  source_component_code =
      some (elim row.source [ none ↦ row.principal.public_id | some c ↦ c.code ]);
  target_component_code = some row.target.code;
  target_hostname = some row.target.hostname;
  audience = some params.audience;
  scopes = row.token.scope_names;
  policy_epoch = some row.target.policy_epoch;
  token_fingerprint = some row.token.fingerprint;
}

pub component_source_identity_matches : AuthorizationDecision → String → String → Bool
component_source_identity_matches decision client_id component_code =
    decision.allow
    && option_beq (some client_id) decision.source_client_id
    && option_beq (some component_code) decision.source_component_code

pub reason_text : AuthorizationReason → String
reason_text allowed = "allowed"
reason_text invalid_token = "invalid_token"
reason_text expired_token = "expired_token"
reason_text revoked_token = "revoked_token"
reason_text insufficient_scope = "insufficient_scope"
reason_text invalid_audience = "invalid_audience"
reason_text component_disabled = "component_disabled"
reason_text component_quarantined = "component_quarantined"
reason_text route_denied = "route_denied"
reason_text catalog_incompatible = "catalog_incompatible"
reason_text authorization_suspended = "authorization_suspended"

abbrev pub actor_type_of : String → String
actor_type_of kind =
    if kind == "EXTERNAL"
    then "external"
    else if kind == "PLATFORM"
    then "platform"
    else "component"

unfoldable pub decision_event : CallParams → CallRow → AuthorizationDecision → AuditInput
unfolding reason_text
decision_event params row decision = record {
  event_type =
      if decision.allow
      then "component_authorization.allowed"
      else "component_authorization.denied";
  actor_type = actor_type_of row.principal.kind;
  actor_id = some (Audit.uuid (elim (source_id row) [ none ↦ row.principal.id | some c ↦ c ]));
  object_type = some "component";
  object_id = some (Audit.uuid row.target.id);
  before = null;
  after = object (
      ("decisionId", uuid decision.decision_id)
      ∷ ("reasonCode", text (codes (reason_text decision.reason_code)))
      ∷ ("scope", text (codes params.scope))
      ∷ ("route", text params.route)
      ∷ ("audience", text params.audience)
      ∷ ("tokenFingerprint", text_or_null decision.token_fingerprint)
      ∷ []);
  correlation_id = params.correlation_id;
}

unfoldable pub missing_event : CallParams → AuthorizationDecision → AuditInput
unfolding reason_text
missing_event params decision = record {
  event_type = "component_authorization.denied";
  actor_type = "component";
  actor_id = some (Audit.name params.token_fingerprint);
  object_type = some "component";
  object_id = none;
  before = null;
  after = object (
      ("decisionId", uuid decision.decision_id)
      ∷ ("reasonCode", text (codes (reason_text decision.reason_code)))
      ∷ ("scope", text (codes params.scope))
      ∷ ("route", text params.route)
      ∷ ("audience", text params.audience)
      ∷ []);
  correlation_id = params.correlation_id;
}

-- `principalDecision`.
unfoldable pub principal_decision : AuthStore → ℕ → ℕ → CallParams → CallRow → AuthorizationDecision
principal_decision db now decision_id params row = elim (decide db now params row) [
  | ok _ ↦ with_base true allowed params decision_id row
  | err reason ↦ with_base false reason params decision_id row
]

-- The write of an allowed call.
unfoldable pub mark_used : ℕ → ℕ → List TokenRow → List TokenRow
mark_used digest now tokens =
    update_where (λ (t : TokenRow). t.lookup_digest == digest)
      (λ (t : TokenRow). record t { last_used_at = some now }) tokens

-- `authorizeComponentCall`; `now` is the time of the transaction.
pub authorize_component_call : AuthStore → ℕ → ℕ → CallParams → AuthStore × AuthorizationDecision
unfolding append_audit
authorize_component_call db now decision_id params =
    elim (call_row db params.token_digest params.host) [
      | err reason ↦
          let decision = denied invalid_token params.correlation_id decision_id in
          (record db { audit = append_audit db.audit (missing_event params decision) }, decision)
      | ok row ↦
          let decision = principal_decision db now decision_id params row in
          (
            record db {
              tokens =
                  if decision.allow then mark_used params.token_digest now db.tokens else db.tokens;
              audit = append_audit db.audit (decision_event params row decision);
            },
            decision,
          )
    ]
