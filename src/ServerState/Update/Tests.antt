-- ===== src/ServerState/Update/Tests.antt =====
-- A registered server that is put on trial.
use kajovo_cml.Prelude.{
  ℕ, suc, ◌<◌, true, false, none, some, List, [], ◌∷◌, ◌≡◌, refl, ◌↔◌, ◌⊎◌, inl, inr, ok, err,
  length, nat_eq, string_eq,
}
use kajovo_cml.Types.{RegistrationState, OperationalState, ManagedServiceState, registration_eq}
use kajovo_cml.Recertification.{
  evaluate_recertification, evaluate_interval, evaluate_dates, phase_at,
}
use kajovo_cml.Recertification.Windows.{IsReviewed}
use kajovo_cml.Audit.{uuid, AuditInput}
use kajovo_cml.ServerState.Lifecycle.{allowed, managed_lifecycle_for}
use kajovo_cml.ServerState.Store.{ServerRow, RevisionRow, ProfileRow, ManagedRow, ApiState, Store}
use kajovo_cml.ServerState.Checks.{
  TransitionParams, admin, Clocks, revision_of, profile_of, recertification_input, is_monitored,
  new_approved_revision_required, check_transition, last_quarantine,
}
use kajovo_cml.ServerState.Checks.Guards.{Permitted}
use kajovo_cml.ServerState.Update.{Transition, server_row, transition_server_state}
use kajovo_cml.ServerState.Update.Effects.{
  decision_for, transition_of, transition_server_state_iff, serving-IsReviewed,
  transition_server_state_effects,
}
use kajovo_cml.ServerState.Update.Mirror.{IsMirrored}
use kajovo_cml.ServerState.Update.Runs.{
  Operation, transition, enable, run_operations, run_operations-IsMirrored,
}

abbrev due_ms : ℕ
due_ms = 1798761600000

abbrev server : ServerRow
server = record {
  id = 7;
  code = "KCML0007";
  enabled = false;
  registration_state = RegistrationState.registered_disabled;
  operational_state = OperationalState.disabled;
  manifest_digest = "sha256:m";
  artifact_digest = "sha256:a";
  active_revision_id = some 70;
  component_id = none;
  lock_version = 3;
  updated_at = 0;
  retired_at = none;
}

abbrev revision : RevisionRow
revision = record {
  id = 70;
  server_id = some 7;
  active = true;
  validation_state = some "VALID";
  approved_at = some 1783209600000;
  review_due_at = some due_ms;
  review_interval_days = some 180;
  created_at = 1783209600000;
}

abbrev profile : ProfileRow
profile = record {
  server_id = 7;
  registration_revision_id = some 70;
  enabled = true;
  profile_digest = some "sha256:p";
}

abbrev managed : ManagedRow
managed = record {
  legacy_mcp_server_id = some 7;
  enabled = false;
  lifecycle_state = ManagedServiceState.registered_disabled;
  operational_state = OperationalState.disabled;
  api_state = ApiState.disabled;
  api_disabled_reason = some "registered";
  last_policy_invalidation_at = 0;
  lock_version = 0;
  updated_at = 0;
}

abbrev store : Store
store = record {
  servers = server ∷ [];
  revisions = revision ∷ [];
  profiles = profile ∷ [];
  histories = [];
  managed = managed ∷ [];
  components = [];
  audit = [];
}

abbrev clocks : Clocks
clocks = record { database = 1790000000000; process = 1790000000000 }

abbrev to_trial : TransitionParams
to_trial = record {
  server_id = 7;
  to = RegistrationState.trial;
  actor_type = admin;
  actor_id = some (uuid 1);
  reason = "manual_trial_started";
  correlation_id = 11;
  activation_evidence = none;
  recovery_approved = false;
  operational_state = none;
}

abbrev on_trial : Transition
on_trial = transition_of clocks store server to_trial

decision_activates : (decision_for clocks store server).can_activate ≡ true
unfolding evaluate_recertification evaluate_interval evaluate_dates phase_at recertification_input
    revision_of
decision_activates = refl

to_trial-Permitted : Permitted store server to_trial (decision_for clocks store server)
unfolding allowed revision_of profile_of
to_trial-Permitted = record {
  edge = refl;
  current = inr decision_activates;
  monitored = inr refl;
  evidenced = inl refl;
  recovered = inl refl;
}

to_trial_succeeds : transition_server_state clocks store to_trial ≡ ok on_trial
to_trial_succeeds =
    (transition_server_state_iff clocks store to_trial on_trial).1
      (server, refl, to_trial-Permitted, refl)

-- A blocked server with no quarantine on record is not registered again.
recovery_refused :
    transition_server_state clocks
      (record store {
        servers = record server { registration_state = RegistrationState.suspended } ∷ [];
      })
      (record to_trial { to = RegistrationState.registered_disabled; recovery_approved = true })
    ≡ err new_approved_revision_required
unfolding transition_server_state check_transition allowed last_quarantine revision_of profile_of
recovery_refused = refl

transition_server_state_iff_example :
    (transition_server_state clocks store to_trial ≡ ok on_trial) ↔ (
      (row : ServerRow) × (server_row store 7 ≡ some row)
      × Permitted store row to_trial (decision_for clocks store row)
      × (on_trial ≡ transition_of clocks store row to_trial))
transition_server_state_iff_example = transition_server_state_iff clocks store to_trial on_trial

serving-IsReviewed_example :
    (row : ServerRow) × (due : ℕ) × (server_row store 7 ≡ some row)
    × IsReviewed (recertification_input (revision_of store row)) due
    × (1790000000000 < due)
    × (is_monitored (profile_of store row (revision_of store row)) ≡ true)
serving-IsReviewed_example =
    serving-IsReviewed clocks store to_trial on_trial to_trial_succeeds refl

transition_server_state_effects_example :
    (row : ServerRow) × (after : ServerRow) × (event : AuditInput) × (server_row store 7 ≡ some row)
    × (server_row on_trial.store 7 ≡ some after)
    × (after.registration_state ≡ RegistrationState.trial)
    × (after.operational_state ≡ on_trial.operational_state)
    × ((after.enabled ≡ true) ↔ (
        (RegistrationState.trial ≡ RegistrationState.trial)
        ⊎ (RegistrationState.trial ≡ RegistrationState.active)))
    × (after.lock_version ≡ suc row.lock_version)
    × ((◌≡◌ {A = ℕ} 8 7) ⊎ (server_row on_trial.store 8 ≡ server_row store 8))
    × (length on_trial.store.histories ≡ 1)
    × (on_trial.store.audit ≡ event ∷ [])
    × (event.object_id ≡ some (uuid 7))
    × (event.actor_id ≡ to_trial.actor_id)
    × (event.correlation_id ≡ to_trial.correlation_id)
transition_server_state_effects_example =
    transition_server_state_effects clocks store to_trial on_trial 8 to_trial_succeeds

store-IsMirrored : IsMirrored store
unfolding managed_lifecycle_for
store-IsMirrored = record {
  servers = (refl, tt);
  managed = (record { enabled = refl; lifecycle = refl; api = refl; reasoned = refl }, tt);
}

abbrev history : List (Clocks × Operation)
history =
    (clocks, transition to_trial)
    ∷ (clocks, enable (uuid 1) 12 7 false)
    ∷ (clocks, enable (uuid 1) 13 9 true)
    ∷ []

run_operations-IsMirrored_example : IsMirrored (run_operations store history)
run_operations-IsMirrored_example = run_operations-IsMirrored store history store-IsMirrored
