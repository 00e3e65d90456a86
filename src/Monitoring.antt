-- ===== src/Monitoring.antt =====
-- The operational state that a monitoring cycle computes (apps/server/src/domain/monitoring-policy.ts),
-- and how the worker keeps the streak of failures (apps/server/src/onboarding/monitoring.ts).
pub mod Hysteresis
mod Tests
use kajovo_cml.Prelude.{
  ℕ, suc, ◌+◌, Bool, true, false, not, ◌&&◌, ◌||◌, ◌==◌, List, [], Option, none, some, ltb, leb,
  nat_eq, any, filter, length, or_else, if◌then◌else◌,
}
use kajovo_cml.Types.{OperationalState, operational_eq}

pub data SampleStatus : Type 0 where
  pass fail stale : SampleStatus

pub record Sample : Type 0 where
  pub status : SampleStatus
  pub critical : Bool

abbrev pub is_failed : Sample → Bool
is_failed s = elim s.status [ fail ↦ true | _ ↦ false ]

abbrev pub is_stale : Sample → Bool
is_stale s = elim s.status [ stale ↦ true | _ ↦ false ]

abbrev pub is_passed : Sample → Bool
is_passed s = elim s.status [ pass ↦ true | _ ↦ false ]

pub data ReasonCode : Type 0 where
  insufficient_samples critical_probe_failure_streak probe_failure stale_probe : ReasonCode
  recovery_hysteresis all_due_probes_pass : ReasonCode

pub record EvaluationInput : Type 0 where
  pub current_state : OperationalState
  pub samples : List Sample
  pub previous_failure_streak : ℕ
  pub minimum_samples : Option ℕ
  pub evaluated_at : ℕ

pub record OperationalStateEvaluation : Type 0 where
  pub state : OperationalState
  pub reason_code : ReasonCode
  pub evaluated_at : ℕ
  pub sample_count : ℕ

-- The current state, where it is one that an evaluation can have.
abbrev pub evaluated_state : OperationalState → OperationalState
evaluated_state OperationalState.healthy = OperationalState.healthy
evaluated_state OperationalState.degraded = OperationalState.degraded
evaluated_state OperationalState.unhealthy = OperationalState.unhealthy
evaluated_state _ = OperationalState.unknown

abbrev pub answer : EvaluationInput → OperationalState → ReasonCode → OperationalStateEvaluation
answer input state reason = record {
  state = state;
  reason_code = reason;
  evaluated_at = input.evaluated_at;
  sample_count = length input.samples;
}

unfoldable pub evaluate_operational_state : EvaluationInput → OperationalStateEvaluation
evaluate_operational_state input =
    let current = evaluated_state input.current_state in
    let failed = filter is_failed input.samples in
    if ltb (length input.samples) (or_else input.minimum_samples 3)
    then answer input current insufficient_samples
    else if any (λ (s : Sample). s.critical) failed && leb 2 (input.previous_failure_streak + 1)
    then answer input OperationalState.unhealthy critical_probe_failure_streak
    else if not (length failed == 0) || any is_stale input.samples
    then answer input OperationalState.degraded
        (if not (length failed == 0) then probe_failure else stale_probe)
    else if current == OperationalState.unhealthy || ltb 0 input.previous_failure_streak
    then answer input OperationalState.degraded recovery_hysteresis
    else answer input OperationalState.healthy all_due_probes_pass

-- What a cycle of the worker keeps of a server: its operational state and `consecutive_failures`.
pub record Watch : Type 0 where
  pub state : OperationalState
  pub consecutive_failures : ℕ

-- The part of a cycle that needs no drift of artifacts: the state is written if a probe was due, and
-- the streak counts the cycles in which a probe did not pass.
unfoldable pub watch_cycle : Watch → List Sample → ℕ → Watch
unfolding evaluate_operational_state
watch_cycle w samples now =
    let evaluation = evaluate_operational_state (record {
      current_state = w.state;
      samples = samples;
      previous_failure_streak = w.consecutive_failures;
      minimum_samples = none;
      evaluated_at = now;
    }) in
    record {
      state = if length samples == 0 then w.state else evaluation.state;
      consecutive_failures =
          if length (filter (λ (s : Sample). not (is_passed s)) samples) == 0
          then 0
          else w.consecutive_failures + 1;
    }
