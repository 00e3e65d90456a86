-- ===== src/Credentials/Tests.antt =====
-- A client of an MCP service: its token, and what becomes of it.
use kajovo_cml.Prelude.{
  ℕ, ◌+◌, ◌*◌, ◌==◌, nat_eq, Bool, true, false, none, some, List, [], ◌∷◌, map, ◌≡◌, ◌≢◌, ◌↔◌, refl,
  Result, ok, err, after, if◌then◌else◌,
}
use kajovo_cml.Security.Text.{codes}
use kajovo_cml.Types.{active}
use kajovo_cml.Recertification.{evaluate_interval, evaluate_dates, phase_at, at_ms, whole, day_ms}
use kajovo_cml.Credentials.Store.{
  CredentialRow, TokenRow, mcp, ServiceRow, Store, Refusal, invalid_token,
  permission_epoch_mismatch,
}
use kajovo_cml.Credentials.Authorize.{TokenRequest}
use kajovo_cml.Credentials.Decision.{authorize_managed_service_token}
use kajovo_cml.Credentials.Issue.{OpaqueSecret, IssueRequest, TokenAnswer, issue_access_token}
use kajovo_cml.Credentials.Manage.{close_kaja_credential}
use kajovo_cml.Credentials.Permissions.{
  PermissionInput, Wanted, normalized_inputs, touched_service_ids,
}
use kajovo_cml.Credentials.Replace.{replace_managed_service_permissions}
use kajovo_cml.Credentials.Conditions.{IsAccepted, authorize_token_conditions}
use kajovo_cml.Credentials.Withdrawing.{replace_withdraws_tokens}
use kajovo_cml.Credentials.Accepting.{issue-authorize}
use kajovo_cml.Credentials.Replacing.{replace_grants_asked}
use kajovo_cml.Credentials.Access.{current_managed_service_scopes}
use kajovo_cml.Credentials.Runs.{rename, issue, handle_all, closed_for_good}

abbrev client : ℕ → CredentialRow
client id = record {
  id = id;
  public_id = id;
  label = codes "client";
  secret_hash = 5;
  secret_fingerprint = 6;
  active = true;
  revoked_at = none;
  deleted_at = none;
  expires_at = none;
  revocation_epoch = 11;
  principal_token_epoch = 12;
}

abbrev crm : ServiceRow
crm = record {
  id = 3;
  service_kind = mcp;
  legacy_mcp_server_id = some 30;
  public_hostname = some "crm.hcasc.cz";
  resource_uri = some "https://crm.hcasc.cz/mcp";
  environment = "production";
  enabled = true;
  lifecycle_state = active;
  api_enabled = true;
  active_revision_id = some 4;
  active_revision_epoch = 1;
  service_token_epoch = 21;
  permission_epoch = 22;
  last_policy_invalidation_at = none;
  monitoring_enabled = true;
  monitoring_profile_digest = some "profile";
  review_approved_at = at_ms 0;
  review_due_at = at_ms (60 * day_ms);
  review_interval_days = whole 60;
}

abbrev start : Store
start = record {
  credentials = client 1 ∷ client 2 ∷ [];
  services = crm ∷ [];
  revisions =
      record {
        id = 4;
        validation_state = "VALID";
        manifest = record { stale_after_seconds = 60; operations = [] };
      }
      ∷ [];
  scopes =
      record { id = 7; managed_service_id = 3; scope_name = codes "mcp.invoke"; revoked_at = none }
      ∷ [];
  permissions = λ credential_id service_id scope_id.
      if (service_id == 3)
      then some (record {
        granted = true;
        revoked_at = none;
        valid_from = 0;
        valid_to = none;
        permission_version = 0;
      })
      else none;
  tokens = [];
  legacy_permissions = [];
  legacy_tokens = [];
  probes = [];
  policy_events = [];
  events = [];
}

abbrev knows : ℕ → List ℕ → Bool
knows hash secret = hash == 5

abbrev wish : ℕ → IssueRequest
wish id = record {
  client_id = id;
  client_secret = codes "secret";
  resource = "https://crm.hcasc.cz/mcp";
  key_id = 1;
  correlation_id = 2;
}

abbrev drawn : ℕ → OpaqueSecret
drawn digest = record { value = codes "opaque"; fingerprint = 8; digest = digest }

abbrev call : ℕ → TokenRequest
call digest = record {
  token_digest = digest;
  audience = "https://crm.hcasc.cz/mcp";
  environment = "production";
  required_scopes = codes "mcp.invoke" ∷ [];
  correlation_id = 3;
  operation_id = some "mcp.invoke";
  request_method = none;
  request_path = none;
}

abbrev given : Result Refusal (TokenAnswer × Store) → Store
given (ok (answer, s)) = s
given (err e) = start

abbrev answered : Result Refusal (TokenAnswer × Store) → TokenAnswer
answered (ok (answer, s)) = answer
answered (err e) = record { access_token = []; token_type = ""; expires_in = 0; scope = [] }

abbrev first : Store
first = given (issue_access_token knows 1000 (wish 1) (drawn 41) start)

abbrev both : Store
both = given (issue_access_token knows 1001 (wish 2) (drawn 42) first)

abbrev closed_first : Store
closed_first = after both (close_kaja_credential 1002 13 100 101 1 false both)

-- The scope is taken from the first client.
abbrev none_left : List PermissionInput
none_left = []

abbrev nothing : Wanted
nothing id = none

abbrev new_epoch : ℕ → ℕ
new_epoch id = id + 50

abbrev taken : Store
taken = after both (replace_managed_service_permissions 1002 new_epoch 100 101 1 none_left both)

-- The token of the second client holds no longer either, and the first token is refused after a revocation.
reasons :
    map
      (λ (s : Store). (authorize_managed_service_token 1003 9 (call 42) s).0.reason_code)
      (both ∷ closed_first ∷ taken ∷ [])
    ≡ none ∷ none ∷ some permission_epoch_mismatch ∷ []
unfolding issue_access_token close_kaja_credential replace_managed_service_permissions
    evaluate_interval evaluate_dates phase_at authorize_managed_service_token
reasons = refl

first_reason :
    (authorize_managed_service_token 1003 9 (call 41) closed_first).0.reason_code
    ≡ some invalid_token
unfolding issue_access_token close_kaja_credential authorize_managed_service_token evaluate_interval
    evaluate_dates phase_at
first_reason = refl

issue-authorize_example : (authorize_managed_service_token 1000 9 (call 41) first).0.allow ≡ true
unfolding issue_access_token evaluate_interval evaluate_dates phase_at
issue-authorize_example =
    issue-authorize knows 1000 (wish 1) (drawn 41) start first
      (answered (issue_access_token knows 1000 (wish 1) (drawn 41) start)) crm (call 41) 9 (tt, tt)
      refl refl refl refl refl refl refl

replace_withdraws_tokens_example :
    (authorize_managed_service_token 1003 9 (call 42) taken).0.allow ≡ false
unfolding issue_access_token replace_managed_service_permissions authorize_managed_service_token
    evaluate_interval evaluate_dates phase_at normalized_inputs touched_service_ids
replace_withdraws_tokens_example =
    replace_withdraws_tokens 1002 new_epoch 100 101 1 none_left nothing both taken refl
      (λ e. cc, (λ e. cc, tt)) refl 3 refl 1003 9 (call 42) refl

abbrev asked : List PermissionInput
asked = record { managed_service_id = 3; scope_names = codes " mcp.invoke" ∷ [] } ∷ []

abbrev wished : Wanted
wished id = if id == 3 then some (codes "mcp.invoke" ∷ []) else none

replace_grants_asked_example :
    current_managed_service_scopes 1002
      (after start (replace_managed_service_permissions 1002 new_epoch 100 101 1 asked start))
      1
      3
    ≡ codes "mcp.invoke" ∷ []
unfolding replace_managed_service_permissions normalized_inputs touched_service_ids
replace_grants_asked_example =
    replace_grants_asked 1002 new_epoch 100 101 1 asked wished start
      (after start (replace_managed_service_permissions 1002 new_epoch 100 101 1 asked start)) refl
      (tt, tt) refl 3 refl

closed_for_good_example :
    (authorize_managed_service_token 1003 9 (call 42) (
      handle_all knows
        (rename 100 101 2 (codes "renamed") ∷ issue 1002 (wish 1) (drawn 43) ∷ [])
        closed_first)).0.principal_id
    ≢ some 1
unfolding issue_access_token close_kaja_credential handle_all authorize_managed_service_token
    evaluate_interval evaluate_dates phase_at
closed_for_good_example =
    closed_for_good knows 1002 13 100 101 1 false both closed_first refl
      (rename 100 101 2 (codes "renamed") ∷ issue 1002 (wish 1) (drawn 43) ∷ []) 1003 9 (call 42)
      refl

authorize_token_conditions_example :
    ((authorize_managed_service_token 1003 9 (call 42) both).0.allow ≡ true) ↔ (
      (token : TokenRow) × (credential : CredentialRow) × (service : ServiceRow) × IsAccepted 1003
        (call 42)
        both
        token
        credential
        service)
unfolding issue_access_token evaluate_interval evaluate_dates phase_at
authorize_token_conditions_example =
    authorize_token_conditions 1003 (call 42) both 9 ((λ e. cc, tt), (tt, tt))
