-- ===== src/Monitoring/Hysteresis.antt =====
-- What the operational state says of the probes (monitoring-policy.ts), and how many cycles it takes
-- to fall and to recover (onboarding/monitoring.ts).
use kajovo_cml.Prelude.{
  ℕ, ◌<◌, ◌≤◌, Bool, true, false, not, ◌&&◌, ◌||◌, ◌==◌, List, [], ◌∷◌, ltb, nat_eq, any, all,
  filter, length, or_else, ◌≡◌, ◌≢◌, refl, ap, ◌∙◌, ◌↔◌, ◌⊎◌, inl, inr, arith, Bool-cases,
  if◌then◌else◌,
}
use kajovo_cml.Types.{OperationalState, operational_eq, operational_beq_iff}
use kajovo_cml.Monitoring.{
  Sample, is_failed, is_stale, is_passed, EvaluationInput, evaluate_operational_state,
  evaluated_state, Watch, watch_cycle,
}

-- A critical probe has failed.
abbrev pub is_critical_failure : Sample → Bool
is_critical_failure s = is_failed s && s.critical

any_critical :
    (samples : List Sample)
    → any (λ (s : Sample). s.critical) (filter is_failed samples) ≡ any is_critical_failure samples
any_critical [] = refl
any_critical (s ∷ samples) = ground (arith, any_critical samples)

all_passed :
    (samples : List Sample)
    → (not (length (filter is_failed samples) == 0) || any is_stale samples)
      ≡ not (all is_passed samples)
all_passed [] = refl
all_passed (s ∷ samples) = ground (arith, all_passed samples)

misses :
    (samples : List Sample)
    → (length (filter (λ (s : Sample). not (is_passed s)) samples) == 0) ≡ all is_passed samples
misses [] = refl
misses (s ∷ samples) = ground (arith, misses samples)

-- With samples enough, the state is `UNHEALTHY` exactly when a critical probe has failed and the
-- cycle before failed too, and `HEALTHY` exactly when every probe has passed, the server is not
-- `UNHEALTHY` and the cycle before did not fail; in every other case it is `DEGRADED`. With fewer
-- samples a state that an evaluation can have stays.
pub evaluate_operational_state_cases :
    (input : EvaluationInput)
    → let state = (evaluate_operational_state input).state in
      let enough = not (ltb (length input.samples) (or_else input.minimum_samples 3)) in
      ((enough ≡ true) ⊎ (state ≡ evaluated_state input.current_state))
      × ((enough ≡ false)
          ⊎ (((state ≡ OperationalState.unhealthy) ↔ (
                (any is_critical_failure input.samples ≡ true)
                × (0 < input.previous_failure_streak)))
              × ((state ≡ OperationalState.healthy) ↔ (
                  (all is_passed input.samples ≡ true)
                  × (evaluated_state input.current_state ≢ OperationalState.unhealthy)
                  × (input.previous_failure_streak ≡ 0)))
              × ((state ≡ OperationalState.unhealthy)
                  ⊎ ((state ≡ OperationalState.healthy) ⊎ (state ≡ OperationalState.degraded)))))
unfolding evaluate_operational_state
evaluate_operational_state_cases input =
    let critical = any_critical input.samples in
    let passed = all_passed input.samples in
    rw (critical, passed)
      (ground (
        arith,
        operational_beq_iff (evaluated_state input.current_state) OperationalState.unhealthy,
      ))

-- One cycle never takes a server that was not `UNHEALTHY` there after a cycle without failures, and
-- never takes it from `UNHEALTHY` to `HEALTHY`.
pub watch_cycle_gradual :
    (w : Watch) (samples : List Sample) (now : ℕ)
    → ((w.consecutive_failures ≢ 0)
        ⊎ ((w.state ≡ OperationalState.unhealthy)
            ⊎ ((watch_cycle w samples now).state ≢ OperationalState.unhealthy)))
      × ((w.state ≢ OperationalState.unhealthy)
          ⊎ ((watch_cycle w samples now).state ≢ OperationalState.healthy))
unfolding watch_cycle
watch_cycle_gradual w samples now =
    let critical = any_critical samples in
    let passed = all_passed samples in
    rw (critical, passed)
      (ground (arith, operational_beq_iff (evaluated_state w.state) OperationalState.unhealthy))

none_critical :
    (samples : List Sample) → all is_passed samples ≡ true → any is_critical_failure samples ≡ false
none_critical [] h = refl
none_critical (s ∷ samples) h = ground (arith, none_critical samples)

passing_cycle :
    (w : Watch) (samples : List Sample) (now : ℕ)
    → 3 ≤ length samples
    → all is_passed samples ≡ true
    → watch_cycle w samples now ≡ record {
      state =
          if evaluated_state w.state == OperationalState.unhealthy || ltb 0 w.consecutive_failures
          then OperationalState.degraded
          else OperationalState.healthy;
      consecutive_failures = 0;
    }
unfolding watch_cycle
passing_cycle w samples now many pass_all =
    let calm = any_critical samples ∙ none_critical samples pass_all in
    let passed = all_passed samples ∙ ap not pass_all in
    let clean = misses samples ∙ pass_all in
    let enough : ltb (length samples) 3 ≡ false = ground arith in
    let due : (length samples == 0) ≡ false = ground arith in
    rw (watch_cycle, calm, passed, clean, enough, due)
      (elim (Bool-cases
        (evaluated_state w.state == OperationalState.unhealthy || ltb 0 w.consecutive_failures)) [
          | inl e ↦ rw e refl
          | inr e ↦ rw e refl
        ])

-- Two cycles in which three probes or more were due and all passed make a server `HEALTHY`, from
-- whatever state and streak.
pub watch_cycle_recovers :
    (w : Watch) (first second : List Sample) (now later : ℕ)
    → 3 ≤ length first
    → 3 ≤ length second
    → all is_passed first ≡ true
    → all is_passed second ≡ true
    → watch_cycle (watch_cycle w first now) second later
      ≡ record { state = OperationalState.healthy; consecutive_failures = 0 }
watch_cycle_recovers w first second now later many₁ many₂ pass₁ pass₂ =
    rw (passing_cycle w first now many₁ pass₁)
      (elim (Bool-cases
        (evaluated_state w.state == OperationalState.unhealthy || ltb 0 w.consecutive_failures)) [
          | inl e ↦ rw e (passing_cycle _ second later many₂ pass₂)
          | inr e ↦ rw e (passing_cycle _ second later many₂ pass₂)
        ])
