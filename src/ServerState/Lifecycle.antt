-- ===== src/ServerState/Lifecycle.antt =====
-- `TRANSITIONS` of apps/server/src/domain/server-state.ts, and the states that follow from a
-- registration state.
pub mod Paths
mod Tests
use kajovo_cml.Prelude.{
  Bool, true, false, ◌||◌, Option, none, some, List, [], ◌∷◌, ◌==◌, any, if◌then◌else◌,
}
use kajovo_cml.Types.{
  RegistrationState, documentation_incomplete, pending_tech_review, pending_security_review,
  pending_test, test_failed, approved, rejected, ManagedServiceState, OperationalState, unknown,
  disabled, healthy, registration_eq,
}

-- The edges out of a state.
pub transitions : RegistrationState → List RegistrationState
transitions RegistrationState.draft = documentation_incomplete ∷ pending_tech_review ∷ rejected ∷ []
transitions documentation_incomplete = pending_tech_review ∷ rejected ∷ []
transitions pending_tech_review = pending_security_review ∷ documentation_incomplete ∷ rejected ∷ []
transitions pending_security_review =
    pending_test ∷ documentation_incomplete ∷ rejected ∷ RegistrationState.quarantined ∷ []
transitions pending_test = approved ∷ test_failed ∷ RegistrationState.quarantined ∷ []
transitions test_failed =
    RegistrationState.registered_disabled ∷ rejected ∷ RegistrationState.quarantined ∷ []
transitions approved = RegistrationState.registered_disabled ∷ []
transitions RegistrationState.registered_disabled =
    RegistrationState.trial ∷ test_failed ∷ RegistrationState.suspended
    ∷ RegistrationState.quarantined ∷ RegistrationState.retired ∷ []
transitions RegistrationState.trial =
    RegistrationState.active ∷ RegistrationState.registered_disabled ∷ test_failed
    ∷ RegistrationState.suspended ∷ RegistrationState.quarantined ∷ []
transitions RegistrationState.active =
    RegistrationState.registered_disabled ∷ RegistrationState.suspended
    ∷ RegistrationState.quarantined ∷ RegistrationState.retired ∷ []
transitions RegistrationState.suspended =
    RegistrationState.registered_disabled ∷ RegistrationState.quarantined
    ∷ RegistrationState.retired ∷ []
transitions RegistrationState.quarantined =
    RegistrationState.registered_disabled ∷ RegistrationState.retired ∷ []
transitions rejected = []
transitions RegistrationState.retired = []

-- The test of `assertServerTransition`.
unfoldable pub allowed : RegistrationState → RegistrationState → Bool
unfolding transitions
allowed from to = any (λ s. s == to) (transitions from)

unfoldable pub operational_state_for :
    RegistrationState → Option OperationalState → OperationalState
operational_state_for to (some requested) = requested
operational_state_for RegistrationState.trial none = unknown
operational_state_for RegistrationState.active none = healthy
operational_state_for RegistrationState.quarantined none = OperationalState.quarantined
operational_state_for RegistrationState.retired none = OperationalState.retired
operational_state_for _ none = disabled

unfoldable pub managed_lifecycle_for : RegistrationState → ManagedServiceState
managed_lifecycle_for RegistrationState.trial = ManagedServiceState.trial
managed_lifecycle_for RegistrationState.active = ManagedServiceState.active
managed_lifecycle_for RegistrationState.suspended = ManagedServiceState.suspended
managed_lifecycle_for RegistrationState.quarantined = ManagedServiceState.quarantined
managed_lifecycle_for RegistrationState.retired = ManagedServiceState.retired
managed_lifecycle_for RegistrationState.registered_disabled =
    ManagedServiceState.registered_disabled
managed_lifecycle_for approved = ManagedServiceState.registered_disabled
managed_lifecycle_for test_failed = ManagedServiceState.registered_disabled
managed_lifecycle_for rejected = ManagedServiceState.registered_disabled
managed_lifecycle_for _ = ManagedServiceState.draft

-- `params.to === "TRIAL" || params.to === "ACTIVE"`.
abbrev pub serves : RegistrationState → Bool
serves RegistrationState.trial = true
serves RegistrationState.active = true
serves _ = false

-- `["SUSPENDED", "QUARANTINED"].includes(from)`.
abbrev pub is_blocked : RegistrationState → Bool
is_blocked RegistrationState.suspended = true
is_blocked RegistrationState.quarantined = true
is_blocked _ = false
