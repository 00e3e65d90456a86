-- ===== src/Types.antt =====
-- apps/server/src/domain/types.ts: the states that the domain modules share.
use kajovo_cml.Prelude.{
  ℕ, zero, suc, true, String, List, [], ◌∷◌, ◌≡◌, refl, ◌↔◌, ap, sym, ◌∙◌, Eq, nat_beq, nat_beq_iff,
}

pub data RegistrationState : Type 0 where
  draft documentation_incomplete pending_tech_review pending_security_review : RegistrationState
  pending_test test_failed approved registered_disabled trial active suspended : RegistrationState
  quarantined rejected retired : RegistrationState

pub data OperationalState : Type 0 where
  unknown disabled healthy degraded unhealthy quarantined maintenance retired : OperationalState

-- `MANAGED_SERVICE_STATES` of apps/server/src/domain/managed-service-types.ts.
pub data ManagedServiceState : Type 0 where
  draft registered_disabled trial active suspended quarantined retired : ManagedServiceState

-- `REGISTRATION_STATES`.
pub registration_states : List RegistrationState
registration_states =
    RegistrationState.draft ∷ documentation_incomplete ∷ pending_tech_review
    ∷ pending_security_review ∷ pending_test ∷ test_failed ∷ approved
    ∷ RegistrationState.registered_disabled ∷ RegistrationState.trial ∷ RegistrationState.active
    ∷ RegistrationState.suspended ∷ RegistrationState.quarantined ∷ rejected
    ∷ RegistrationState.retired ∷ []

-- `OPERATIONAL_STATES`.
pub operational_states : List OperationalState
operational_states =
    unknown ∷ disabled ∷ healthy ∷ degraded ∷ unhealthy ∷ OperationalState.quarantined ∷ maintenance
    ∷ OperationalState.retired ∷ []

abbrev nth {ℓ} : {A : Type ℓ} → List A → ℕ → A → A
nth [] n d = d
nth (x ∷ xs) zero d = x
nth (x ∷ xs) (suc n) d = nth xs n d

-- The place of a state in `REGISTRATION_STATES`.
abbrev pub registration_index : RegistrationState → ℕ
registration_index RegistrationState.draft = 0
registration_index documentation_incomplete = 1
registration_index pending_tech_review = 2
registration_index pending_security_review = 3
registration_index pending_test = 4
registration_index test_failed = 5
registration_index approved = 6
registration_index RegistrationState.registered_disabled = 7
registration_index RegistrationState.trial = 8
registration_index RegistrationState.active = 9
registration_index RegistrationState.suspended = 10
registration_index RegistrationState.quarantined = 11
registration_index rejected = 12
registration_index RegistrationState.retired = 13

nth-registration_index :
    (s : RegistrationState)
    → nth registration_states (registration_index s) RegistrationState.draft ≡ s
unfolding registration_states
nth-registration_index RegistrationState.draft = refl
nth-registration_index _ = refl

abbrev pub operational_index : OperationalState → ℕ
operational_index unknown = 0
operational_index disabled = 1
operational_index healthy = 2
operational_index degraded = 3
operational_index unhealthy = 4
operational_index OperationalState.quarantined = 5
operational_index maintenance = 6
operational_index OperationalState.retired = 7

nth-operational_index :
    (s : OperationalState) → nth operational_states (operational_index s) unknown ≡ s
unfolding operational_states
nth-operational_index unknown = refl
nth-operational_index _ = refl

pub registration_beq_iff :
    (a b : RegistrationState)
    → (nat_beq (registration_index a) (registration_index b) ≡ true) ↔ (a ≡ b)
registration_beq_iff a b = (
  λ h.
      sym (nth-registration_index a)
      ∙ ap (λ n. nth registration_states n RegistrationState.draft) ((nat_beq_iff _ _).0 h)
      ∙ nth-registration_index b,
  λ e. (nat_beq_iff _ _).1 (ap registration_index e),
)

pub operational_beq_iff :
    (a b : OperationalState)
    → (nat_beq (operational_index a) (operational_index b) ≡ true) ↔ (a ≡ b)
operational_beq_iff a b = (
  λ h.
      sym (nth-operational_index a)
      ∙ ap (λ n. nth operational_states n unknown) ((nat_beq_iff _ _).0 h)
      ∙ nth-operational_index b,
  λ e. (nat_beq_iff _ _).1 (ap operational_index e),
)

instance abbrev pub registration_eq : Eq RegistrationState
registration_eq = record {
  beq = λ a b. nat_beq (registration_index a) (registration_index b);
  beq_iff = registration_beq_iff;
}

instance abbrev pub operational_eq : Eq OperationalState
operational_eq = record {
  beq = λ a b. nat_beq (operational_index a) (operational_index b);
  beq_iff = operational_beq_iff;
}

-- The texts that stand for the states.
pub registration_text : RegistrationState → String
registration_text RegistrationState.draft = "DRAFT"
registration_text RegistrationState.documentation_incomplete = "DOCUMENTATION_INCOMPLETE"
registration_text RegistrationState.pending_tech_review = "PENDING_TECH_REVIEW"
registration_text RegistrationState.pending_security_review = "PENDING_SECURITY_REVIEW"
registration_text RegistrationState.pending_test = "PENDING_TEST"
registration_text RegistrationState.test_failed = "TEST_FAILED"
registration_text RegistrationState.approved = "APPROVED"
registration_text RegistrationState.registered_disabled = "REGISTERED_DISABLED"
registration_text RegistrationState.trial = "TRIAL"
registration_text RegistrationState.active = "ACTIVE"
registration_text RegistrationState.suspended = "SUSPENDED"
registration_text RegistrationState.quarantined = "QUARANTINED"
registration_text RegistrationState.rejected = "REJECTED"
registration_text RegistrationState.retired = "RETIRED"

pub operational_text : OperationalState → String
operational_text OperationalState.unknown = "UNKNOWN"
operational_text OperationalState.disabled = "DISABLED"
operational_text OperationalState.healthy = "HEALTHY"
operational_text OperationalState.degraded = "DEGRADED"
operational_text OperationalState.unhealthy = "UNHEALTHY"
operational_text OperationalState.quarantined = "QUARANTINED"
operational_text OperationalState.maintenance = "MAINTENANCE"
operational_text OperationalState.retired = "RETIRED"
