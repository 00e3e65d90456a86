-- ===== src/ComponentAuth/Authorize/Tests.antt =====
-- A call between two components of one store (component-auth.ts).
use kajovo_cml.Prelude.{if◌then◌else◌, true, false, none, some, [], ◌∷◌, ◌≡◌, refl, ◌↔◌, ok}
use kajovo_cml.Security.Text.{codes}
use kajovo_cml.Audit.{AuditInput}
use kajovo_cml.ComponentAuth.Store.{TokenRow, PrincipalRow, CallComponent, PermissionRow, AuthStore}
use kajovo_cml.ComponentAuth.Decide.{CallParams, CallRow, call_row, decide}
use kajovo_cml.ComponentAuth.Authorize.{
  authorize_component_call, principal_decision, denied, with_base,
}
use kajovo_cml.ComponentAuth.Authorize.Grants.{
  Granted, TokensAfter, authorize_iff, authorize_effects,
}

abbrev caller : CallComponent
caller = record {
  id = 20;
  code = "orders";
  hostname = codes "orders.example";
  principal_id = some 10;
  registration_type = "EXTERNAL";
  enabled = true;
  ingress_enabled = true;
  activation_state = "ACTIVE";
  lifecycle_state = "ACTIVE";
  operational_state = "HEALTHY";
  policy_epoch = 1;
}

abbrev callee : CallComponent
callee = record caller {
  id = 30;
  code = "stock";
  hostname = codes "Stock.example";
  principal_id = none;
}

abbrev token : TokenRow
token = record {
  lookup_digest = 77;
  fingerprint = "f77";
  source_principal_id = 10;
  target_component_id = some 30;
  audience = codes "*";
  scope_names = "stock.read" ∷ [];
  issued_revocation_epoch = 2;
  expires_at = 100;
  revoked_at = none;
  last_used_at = none;
}

abbrev principal : PrincipalRow
principal = record {
  id = 10;
  public_id = "c-10";
  kind = "COMPONENT";
  status = "ACTIVE";
  revocation_epoch = 2;
}

abbrev permission : PermissionRow
permission = record {
  source_id = 20;
  target_component_id = 30;
  scope_name = "stock.read";
  route_pattern = codes "/v1/*";
  revoked_at = none;
}

abbrev db : AuthStore
db = record {
  tokens = token ∷ [];
  principals = principal ∷ [];
  components = caller ∷ callee ∷ [];
  suspensions = [];
  component_permissions = permission ∷ [];
  principal_permissions = [];
  generation_components = [];
  generation_jobs = [];
  audit = [];
}

abbrev call : CallParams
call = record {
  token_digest = 77;
  token_fingerprint = "f77";
  audience = codes "https://stock.example";
  host = codes "stock.example";
  scope = "stock.read";
  route = codes "/v1/items";
  correlation_id = 5;
  allow_generation_probe = false;
}

call_allowed : ((authorize_component_call db 50 1 call).1).allow ≡ true
unfolding authorize_component_call principal_decision denied with_base call_row decide
call_allowed = refl

late_call_denied : ((authorize_component_call db 100 1 call).1).allow ≡ false
unfolding authorize_component_call principal_decision denied with_base call_row decide
late_call_denied = refl

authorize_iff_example : (((authorize_component_call db 50 1 call).1).allow ≡ true) ↔ (
    (row : CallRow) × (call_row db call.token_digest call.host ≡ ok row) × Granted db 50 call row)
authorize_iff_example = authorize_iff db 50 1 call

authorize_effects_example :
    let (after, decision) = authorize_component_call db 50 1 call in
    (event : AuditInput) × (after.audit ≡ event ∷ db.audit)
    × (event.event_type ≡ (
        if decision.allow
        then "component_authorization.allowed"
        else "component_authorization.denied"))
    × (event.correlation_id ≡ call.correlation_id)
    × TokensAfter db call.token_digest 50 decision.allow after.tokens
    × (after.principals ≡ db.principals)
    × (after.components ≡ db.components)
    × (after.component_permissions ≡ db.component_permissions)
    × (after.principal_permissions ≡ db.principal_permissions)
authorize_effects_example = authorize_effects db 50 1 call
