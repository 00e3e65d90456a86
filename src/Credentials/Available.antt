-- ===== src/Credentials/Available.antt =====
-- Just when a service can be called (`assertManagedServiceRuntimeAvailable` of
-- apps/server/src/domain/managed-service.ts).
use kajovo_cml.Prelude.{
  ℕ, ◌+◌, ◌*◌, ◌<◌, true, ◌==◌, nat_eq, string_eq, Option, none, some, is_some, String, ◌≡◌, ◌≢◌,
  refl, sym, ◌∙◌, ◌↔◌, ◌⊎◌, inl, inr, Bool-cases, ok, guard_iff, >>_iff, some_inj,
}
use kajovo_cml.Types.{ManagedServiceState, trial, active}
use kajovo_cml.Recertification.{RecertificationInput, day_ms}
use kajovo_cml.Recertification.Windows.{IsReviewed}
use kajovo_cml.Recertification.Serving.{permissions-IsReviewed}
use kajovo_cml.Credentials.Store.{ServiceKind, mcp, external_api, ServiceRow, RevisionRow}
use kajovo_cml.Credentials.Access.{
  is_given, serves_state, is_configured, can_serve_managed_service,
  assert_managed_service_runtime_available,
}
use kajovo_cml.Credentials.Authorize.{validation_state_of}
use kajovo_cml.Credentials.Holding.{and_iff}

-- A text that is there and not empty.
abbrev pub Given : Option String → Type 0
Given o = (value : String) × (o ≡ some value) × (value ≢ "")

-- What the active revision of a service has been reviewed for.
abbrev pub review_of : ServiceRow → Option RevisionRow → RecertificationInput
review_of service revision = record {
  active_revision_id = service.active_revision_id;
  validation_state = validation_state_of revision;
  approved_at = service.review_approved_at;
  review_due_at = service.review_due_at;
  review_interval_days = service.review_interval_days;
}

-- A service that is switched on, on trial or active, monitored, set up, and reviewed less than 30 days
-- beyond its time.
pub record IsAvailable (now : ℕ) (service : ServiceRow) (revision : Option RevisionRow)
    : Type 0 where
  pub enabled : service.enabled ≡ true
  pub serves : (service.lifecycle_state ≡ trial) ⊎ (service.lifecycle_state ≡ active)
  pub api_enabled : service.api_enabled ≡ true
  pub monitored : service.monitoring_enabled ≡ true
  pub profile : Given service.monitoring_profile_digest
  pub reviewed : (due : ℕ) × IsReviewed (review_of service revision) due × (now < due + 30 * day_ms)
  pub hostname : Given service.public_hostname
  pub resource : Given service.resource_uri
  pub legacy :
      (service.service_kind ≡ external_api) ⊎ ((id : ℕ) × (service.legacy_mcp_server_id ≡ some id))

pub Given-iff : (o : Option String) → (is_given o ≡ true) ↔ Given o
Given-iff none = (λ h. cc, λ (v, e, n). cc)
Given-iff (some value) = elim (Bool-cases (value == "")) [
  | inl e ↦
      let empty : value ≡ "" = (string_eq.beq_iff value "").0 e in
      rw e (λ h. cc, λ (v, same, n). absurd (n (sym (some_inj same) ∙ empty)))
  | inr e ↦
      rw e (λ h. (value, refl, λ empty. cc (e, (string_eq.beq_iff value "").1 empty)), λ w. refl)
]

serves_iff :
    (state : ManagedServiceState)
    → (serves_state state ≡ true) ↔ ((state ≡ trial) ⊎ (state ≡ active))
serves_iff trial = (λ h. inl refl, λ w. refl)
serves_iff active = (λ h. inr refl, λ w. refl)
serves_iff ManagedServiceState.draft = (λ h. cc, λ w. elim w [ inl e ↦ cc | inr e ↦ cc ])
serves_iff ManagedServiceState.registered_disabled =
    (λ h. cc, λ w. elim w [ inl e ↦ cc | inr e ↦ cc ])
serves_iff ManagedServiceState.suspended = (λ h. cc, λ w. elim w [ inl e ↦ cc | inr e ↦ cc ])
serves_iff ManagedServiceState.quarantined = (λ h. cc, λ w. elim w [ inl e ↦ cc | inr e ↦ cc ])
serves_iff ManagedServiceState.retired = (λ h. cc, λ w. elim w [ inl e ↦ cc | inr e ↦ cc ])

pub some_iff {ℓ} : {A : Type ℓ} (o : Option A) → (is_some o ≡ true) ↔ ((a : A) × (o ≡ some a))
some_iff none = (λ h. cc, λ (a, e). cc)
some_iff (some a) = (λ h. (a, refl), λ w. refl)

configured_iff :
    (kind : ServiceKind) (service : ServiceRow)
    → (is_configured kind service ≡ true) ↔ (
        ((kind ≡ external_api) ⊎ ((id : ℕ) × (service.legacy_mcp_server_id ≡ some id)))
        × Given service.public_hostname
        × Given service.resource_uri)
configured_iff external_api service = (
  λ h. let (a, b) = (and_iff _ _).0 h in (inl refl, (Given-iff _).0 a, (Given-iff _).0 b),
  λ (k, a, b). (and_iff _ _).1 ((Given-iff _).1 a, (Given-iff _).1 b),
)
configured_iff mcp service = (
  λ h.
      let (h2, b) = (and_iff _ _).0 h in
      let (k, a) = (and_iff _ _).0 h2 in
      (inr ((some_iff _).0 k), (Given-iff _).0 a, (Given-iff _).0 b),
  λ (k, a, b).
      let id : (id : ℕ) × (service.legacy_mcp_server_id ≡ some id) = elim k [
        | inl e ↦ cc
        | inr w ↦ w
      ] in
      (and_iff _ _).1 ((and_iff _ _).1 ((some_iff _).1 id, (Given-iff _).1 a), (Given-iff _).1 b),
)

module _ (now : ℕ) (service : ServiceRow) (revision : Option RevisionRow) where
  pub IsAvailable-iff :
      (assert_managed_service_runtime_available now service (validation_state_of revision) ≡ ok tt)
      ↔ IsAvailable now service revision
  unfolding assert_managed_service_runtime_available can_serve_managed_service
  IsAvailable-iff =
      let review = (permissions-IsReviewed (review_of service revision) now).0 in
      (
        λ h.
            let (h1, set_up) = (>>_iff _ _ tt).0 h in
            let (enabled, h2) = (>>_iff _ _ tt).0 h1 in
            let (h3, recertified) = (>>_iff _ _ tt).0 h2 in
            let (h4, monitoring) = (>>_iff _ _ tt).0 h3 in
            let (serves, api) = (>>_iff _ _ tt).0 h4 in
            let (monitored, profile) = (and_iff _ _).0 ((guard_iff _ _).0 monitoring) in
            let (legacy, hostname, resource) =
              (configured_iff service.service_kind service).0 ((guard_iff _ _).0 set_up) in
            record {
              enabled = (guard_iff _ _).0 enabled;
              serves = (serves_iff _).0 ((guard_iff _ _).0 serves);
              api_enabled = (guard_iff _ _).0 api;
              monitored = monitored;
              profile = (Given-iff _).0 profile;
              reviewed = review.0 ((guard_iff _ _).0 recertified);
              hostname = hostname;
              resource = resource;
              legacy = legacy;
            },
        λ a.
            let monitoring =
              (and_iff service.monitoring_enabled _).1 (a.monitored, (Given-iff _).1 a.profile) in
            let set_up =
              (configured_iff service.service_kind service).1 (a.legacy, a.hostname, a.resource) in
            (>>_iff _ _ tt).1 (
              (>>_iff _ _ tt).1 (
                (guard_iff _ _).1 a.enabled,
                (>>_iff _ _ tt).1 (
                  (>>_iff _ _ tt).1 (
                    (>>_iff _ _ tt).1 (
                      (guard_iff _ _).1 ((serves_iff _).1 a.serves),
                      (guard_iff _ _).1 a.api_enabled,
                    ),
                    (guard_iff _ _).1 monitoring,
                  ),
                  (guard_iff _ _).1 (review.1 a.reviewed),
                ),
              ),
              (guard_iff _ _).1 set_up,
            ),
      )
