-- ===== src/Credentials/Access.antt =====
-- Whether a managed service can be called, and the scopes that a credential holds in it
-- (apps/server/src/domain/managed-service.ts).
use kajovo_cml.Prelude.{
  ℕ, Bool, true, false, not, ◌&&◌, ◌==◌, nat_eq, text_eq, string_eq, Option, none, some, is_some,
  String, List, [], ◌∷◌, filter, Result, guard, ◌>>◌,
}
use kajovo_cml.Types.{trial, active, ManagedServiceState}
use kajovo_cml.Recertification.{evaluate_recertification}
use kajovo_cml.Credentials.Store.{
  ServiceKind, mcp, external_api, ServiceRow, ScopeRow, Store, Refusal, service_disabled,
  lifecycle_inactive, api_disabled, monitoring_unavailable, runtime_configuration_missing,
  recertification_blocked, is_current,
}

abbrev pub serves_state : ManagedServiceState → Bool
serves_state active = true
serves_state trial = true
serves_state state = false

-- A text that is there and not empty, as the truth of a value in the source asks.
abbrev pub is_given : Option String → Bool
is_given none = false
is_given (some value) = not (value == "")

abbrev pub is_configured : ServiceKind → ServiceRow → Bool
is_configured mcp service =
    is_some service.legacy_mcp_server_id
    && is_given service.public_hostname
    && is_given service.resource_uri
is_configured external_api service =
    is_given service.public_hostname && is_given service.resource_uri

abbrev pub scope_names_of : List ScopeRow → List (List ℕ)
scope_names_of [] = []
scope_names_of (scope ∷ scopes) = scope.scope_name ∷ scope_names_of scopes

module _ (now : ℕ) where
  unfoldable pub can_serve_managed_service : ServiceRow → Option String → Result Refusal (Unit {0})
  unfolding evaluate_recertification
  can_serve_managed_service service validation_state =
      let recertification =
        evaluate_recertification
          (record {
            active_revision_id = service.active_revision_id;
            validation_state = validation_state;
            approved_at = service.review_approved_at;
            review_due_at = service.review_due_at;
            review_interval_days = service.review_interval_days;
          })
          now in
      guard (serves_state service.lifecycle_state) lifecycle_inactive
      >> guard service.api_enabled api_disabled
      >> guard (service.monitoring_enabled && is_given service.monitoring_profile_digest)
          monitoring_unavailable
      >> guard recertification.can_serve_existing (recertification_blocked recertification.reason)

  unfoldable pub assert_managed_service_runtime_available :
      ServiceRow → Option String → Result Refusal (Unit {0})
  unfolding can_serve_managed_service
  assert_managed_service_runtime_available service validation_state =
      guard service.enabled service_disabled
      >> can_serve_managed_service service validation_state
      >> guard (is_configured service.service_kind service) runtime_configuration_missing

  -- The row of `managed_service_scope` that a current permission names. The query joins the two by the
  -- scope's id; that the scope is one of the permission's service, which is tested here, holds for each
  -- row that the writers insert.
  abbrev pub is_granted : Store → ℕ → ℕ → ScopeRow → Bool
  is_granted s credential_id service_id scope =
      (scope.managed_service_id == service_id)
      && not (is_some scope.revoked_at)
      && is_current now (s.permissions credential_id service_id scope.id)

  unfoldable pub current_managed_service_scopes : Store → ℕ → ℕ → List (List ℕ)
  current_managed_service_scopes s credential_id service_id =
      scope_names_of (filter (is_granted s credential_id service_id) s.scopes)
