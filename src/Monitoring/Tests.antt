-- ===== src/Monitoring/Tests.antt =====
-- Cycles of a few probes (monitoring-policy.ts).
use kajovo_cml.Prelude.{
  ◌<◌, true, false, not, List, [], ◌∷◌, none, ltb, any, all, length, or_else, ◌≡◌, ◌≢◌, refl, ◌↔◌,
  ◌⊎◌, arith,
}
use kajovo_cml.Types.{OperationalState}
use kajovo_cml.Monitoring.{
  Sample, pass, fail, is_passed, EvaluationInput, evaluate_operational_state, evaluated_state,
  Watch, watch_cycle,
}
use kajovo_cml.Monitoring.Hysteresis.{
  is_critical_failure, evaluate_operational_state_cases, watch_cycle_gradual, watch_cycle_recovers,
}

abbrev passing : List Sample
passing =
    record { status = pass; critical = true }
    ∷ record { status = pass; critical = true }
    ∷ record { status = pass; critical = false }
    ∷ []

abbrev failing : List Sample
failing = record { status = fail; critical = true } ∷ passing

abbrev input : EvaluationInput
input = record {
  current_state = OperationalState.healthy;
  samples = failing;
  previous_failure_streak = 1;
  minimum_samples = none;
  evaluated_at = 9;
}

abbrev down : Watch
down = record { state = OperationalState.unhealthy; consecutive_failures = 4 }

falls : (evaluate_operational_state input).state ≡ OperationalState.unhealthy
unfolding evaluate_operational_state
falls = refl

evaluate_operational_state_cases_example :
    let state = (evaluate_operational_state input).state in
    let enough = not (ltb (length input.samples) (or_else input.minimum_samples 3)) in
    ((enough ≡ true) ⊎ (state ≡ evaluated_state input.current_state))
    × ((enough ≡ false)
        ⊎ (((state ≡ OperationalState.unhealthy) ↔ (
              (any is_critical_failure input.samples ≡ true) × (0 < input.previous_failure_streak)))
            × ((state ≡ OperationalState.healthy) ↔ (
                (all is_passed input.samples ≡ true)
                × (evaluated_state input.current_state ≢ OperationalState.unhealthy)
                × (input.previous_failure_streak ≡ 0)))
            × ((state ≡ OperationalState.unhealthy)
                ⊎ ((state ≡ OperationalState.healthy) ⊎ (state ≡ OperationalState.degraded)))))
evaluate_operational_state_cases_example = evaluate_operational_state_cases input

watch_cycle_gradual_example :
    ((down.consecutive_failures ≢ 0)
      ⊎ ((down.state ≡ OperationalState.unhealthy)
          ⊎ ((watch_cycle down passing 5).state ≢ OperationalState.unhealthy)))
    × ((down.state ≢ OperationalState.unhealthy)
        ⊎ ((watch_cycle down passing 5).state ≢ OperationalState.healthy))
watch_cycle_gradual_example = watch_cycle_gradual down passing 5

watch_cycle_recovers_example :
    watch_cycle (watch_cycle down passing 5) passing 6
    ≡ record { state = OperationalState.healthy; consecutive_failures = 0 }
watch_cycle_recovers_example =
    watch_cycle_recovers down passing passing 5 6 (omega arith) (omega arith) refl refl
