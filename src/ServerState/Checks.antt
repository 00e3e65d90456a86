-- ===== src/ServerState/Checks.antt =====
-- What `transitionServerState` of apps/server/src/domain/server-state.ts reads and tests before it
-- writes.
pub mod Guards
use kajovo_cml.Prelude.{
  ℕ, ◌+◌, Bool, true, false, not, ◌&&◌, ◌||◌, Option, none, some, List, [], ◌∷◌, ◌++◌, String, ◌==◌,
  nat_eq, string_eq, leb, ltb, max, if◌then◌else◌, find, filter, update_where, option_beq, is_some,
  or_else, Result, ok, err, ◌>>=◌, ◌>>◌, guard, or_fail,
}
use kajovo_cml.Types.{
  RegistrationState, OperationalState, registration_text, operational_text, registration_eq,
  operational_eq,
}
use kajovo_cml.Recertification.{
  RecertificationInput, RecertificationDecision, RecertificationPhase, Reason, DateText, missing,
  at_ms, NumberOrNull, null, whole, evaluate_recertification,
}
use kajovo_cml.Security.Redact
use kajovo_cml.Audit.{Ident, uuid, AuditInput, append_audit}
use kajovo_cml.ServerState.Lifecycle.{
  allowed, operational_state_for, managed_lifecycle_for, serves, is_blocked,
}
use kajovo_cml.ServerState.Store.{
  ServerRow, RevisionRow, ProfileRow, HistoryRow, ManagedRow, ComponentRow, Store, ApiState,
  ComponentLifecycle, ActivationState,
}

-- The errors that are thrown, by their messages; `status_code` is the `statusCode` of each.
pub data TransitionError : Type 0 where
  not_found : TransitionError
  invalid_server_state_transition : RegistrationState → RegistrationState → TransitionError
  recertification : Reason → TransitionError
  recertification_blocks_activation : TransitionError
  active_monitoring_profile_required : TransitionError
  activation_evidence_required : TransitionError
  new_approved_revision_required : TransitionError

pub status_code : TransitionError → ℕ
status_code not_found = 404
status_code _ = 409

abbrev pub assert_server_transition :
    RegistrationState → RegistrationState → Result TransitionError (Unit {0})
assert_server_transition from to = guard (allowed from to) (invalid_server_state_transition from to)

pub data ActorType : Type 0 where
  admin system : ActorType

abbrev pub actor_text : ActorType → String
actor_text admin = "admin"
actor_text system = "system"

pub record TransitionParams : Type 0 where
  pub server_id : ℕ
  pub to : RegistrationState
  pub actor_type : ActorType
  pub actor_id : Option Ident
  pub reason : String
  pub correlation_id : ℕ
  pub activation_evidence : Option Redact.Fields
  pub recovery_approved : Bool
  pub operational_state : Option OperationalState

-- `now()` of the database's transaction and `new Date()` of the process.
pub record Clocks : Type 0 where
  pub database : ℕ
  pub process : ℕ

-- The joins of the first query: the active revision of the server, and its monitoring profile.
unfoldable pub revision_of : Store → ServerRow → Option RevisionRow
revision_of db server =
    find
      (λ (rr : RevisionRow).
        option_beq (some rr.id) server.active_revision_id
        && option_beq rr.server_id (some server.id)
        && rr.active)
      db.revisions

unfoldable pub profile_of : Store → ServerRow → Option RevisionRow → Option ProfileRow
profile_of db server none = none
profile_of db server (some rr) =
    find
      (λ (mp : ProfileRow).
        (mp.server_id == server.id) && option_beq mp.registration_revision_id (some rr.id))
      db.profiles

-- The latest suspension or quarantine of a server.
unfoldable pub last_quarantine : ℕ → List HistoryRow → Option ℕ
last_quarantine server_id [] = none
last_quarantine server_id (h ∷ rows) =
    let earlier = last_quarantine server_id rows in
    if (h.server_id == server_id) && is_blocked h.registration_state
    then some (elim earlier [ none ↦ h.recorded_at | some m ↦ max h.recorded_at m ])
    else earlier

abbrev pub date_text : Option ℕ → DateText
date_text none = missing
date_text (some t) = at_ms t

abbrev pub number_or_null : Option ℕ → NumberOrNull
number_or_null none = null
number_or_null (some n) = whole n

unfoldable pub recertification_input : Option RevisionRow → RecertificationInput
recertification_input none = record {
  active_revision_id = none;
  validation_state = none;
  approved_at = missing;
  review_due_at = missing;
  review_interval_days = null;
}
recertification_input (some rr) = record {
  active_revision_id = some rr.id;
  validation_state = rr.validation_state;
  approved_at = date_text rr.approved_at;
  review_due_at = date_text rr.review_due_at;
  review_interval_days = number_or_null rr.review_interval_days;
}

-- `!row.monitoring_enabled || !row.profile_digest`, negated.
abbrev pub is_monitored : Option ProfileRow → Bool
is_monitored none = false
is_monitored (some mp) = mp.enabled && has_digest mp.profile_digest
  where
    has_digest : Option String → Bool
    has_digest none = false
    has_digest (some d) = not (d == "")

-- Evidence that is given and has a key.
abbrev pub is_evidence : Option Redact.Fields → Bool
is_evidence none = false
is_evidence (some Redact.end) = false
is_evidence (some (Redact.field k v rest)) = true

abbrev pub recertification_error : Option Reason → TransitionError
recertification_error none = recertification_blocks_activation
recertification_error (some r) = recertification r

-- `revisionCreatedAt <= quarantineAt`, negated: with no quarantine on record the bound is infinite.
abbrev pub is_newer : Option RevisionRow → Option ℕ → Bool
is_newer rr none = false
is_newer none (some quarantined_at) = ltb quarantined_at 0
is_newer (some rr) (some quarantined_at) = ltb quarantined_at rr.created_at

-- The guards of `transitionServerState`, in the order in which it tests them.
unfoldable pub check_transition :
    Store
    → ServerRow
    → TransitionParams
    → RecertificationDecision
    → Result TransitionError (Unit {0})
check_transition db server params decision = do
  let rr = revision_of db server
  assert_server_transition server.registration_state params.to
  guard (not (serves params.to) || decision.can_activate) (recertification_error decision.reason)
  guard (not (serves params.to) || is_monitored (profile_of db server rr))
      active_monitoring_profile_required
  guard (not (params.to == RegistrationState.active) || is_evidence params.activation_evidence)
      activation_evidence_required
  guard
      (not (
          is_blocked server.registration_state
          && params.to == RegistrationState.registered_disabled)
        || (params.recovery_approved && is_newer rr (last_quarantine server.id db.histories)))
      new_approved_revision_required
