-- ===== src/WedosDns/Propagation.antt =====
-- What the name servers of a zone answer, and the wait for it
-- (apps/server/src/tls/wedos-dns-operation.ts).
mod Tests
use kajovo_cml.Prelude.{
  ℕ, zero, suc, ◌+◌, ◌-◌, ◌*◌, ◌/◌, min, Bool, true, false, not, ◌&&◌, ◌||◌, ◌==◌, text_eq, nat_eq,
  option_beq, bool_beq, Option, none, some, or_else, List, [], ◌∷◌, ◌++◌, map, any, all, filter,
  find, length, ltb, leb, if◌then◌else◌, Result, ok, err,
}
use kajovo_cml.Security.Text.{codes}
use kajovo_cml.WedosDns.Names.{Text}
use kajovo_cml.WedosDns.Store.{
  Response, answered, network_failure, protocol_failure, SoaStatus, available, soa_network_failure,
  soa_protocol_failure, Observation, Snapshot,
}

pub data Evaluation : Type 0 where
  pass still_propagating provider_replica_divergence wapi_authoritative_divergence : Evaluation
  network_failed protocol_failed : Evaluation

abbrev pub is_answered : Observation → Bool
is_answered o = elim o.response [ answered ↦ true | _ ↦ false ]

abbrev pub is_protocol_failure : Observation → Bool
is_protocol_failure o = elim o.response [ protocol_failure ↦ true | _ ↦ false ]

abbrev pub has_soa : SoaStatus → Bool
has_soa available = true
has_soa soa_network_failure = false
has_soa soa_protocol_failure = false

-- `item.expectedTxtPresent === expectedPresent`.
abbrev pub is_expected : Bool → Observation → Bool
is_expected expected_present o = elim o.expected_txt_present [
  | none ↦ false
  | some present ↦ bool_beq present expected_present
]

-- `[...new Set(…)]`.
unfoldable pub distinct : List Text → List Text
distinct [] = []
distinct (t ∷ texts) = t ∷ filter (λ u. not (u == t)) (distinct texts)

-- A list of `byAuthority`.
abbrev pub group : List Observation → Text → List Observation
group observations authority = filter (λ o. o.authority == authority) observations

unfoldable pub group_failure : List Observation → Option Evaluation
group_failure observations =
    if any is_protocol_failure observations
    then some protocol_failed
    else if not (any is_answered observations)
    then some network_failed
    else none

abbrev pub or_first : Option Evaluation → Option Evaluation → Option Evaluation
or_first none later = later
or_first (some failure) later = some failure

-- The loop over the values of `byAuthority`.
unfoldable pub first_failure : List Observation → List Text → Option Evaluation
first_failure observations [] = none
first_failure observations (authority ∷ authorities) =
    or_first (group_failure (group observations authority)) (first_failure observations authorities)

-- `filter((serial) => Boolean(serial))`.
abbrev pub present : List (Option Text) → List Text
present [] = []
present (none ∷ serials) = present serials
present (some [] ∷ serials) = present serials
present (some (c ∷ serial) ∷ serials) = (c ∷ serial) ∷ present serials

unfoldable pub baseline_serial : Option Snapshot → Observation → Option Text
baseline_serial none o = none
baseline_serial (some baseline) o =
    elim (find (λ item. item.authority == o.authority && item.address == o.address)
      baseline.observations) [ none ↦ none | some item ↦ item.soa_serial ]

-- `Boolean(serial && serial === item.soaSerial)`.
unfoldable pub is_stale : Option Snapshot → Observation → Bool
unfolding baseline_serial
is_stale baseline o = elim (baseline_serial baseline o) [
  | none ↦ false
  | some serial ↦ not (serial == []) && option_beq (some serial) o.soa_serial
]

-- The answers differ from what is expected: how far the replicas of the provider agree.
unfoldable pub divergence : Bool → Option Snapshot → List Observation → Evaluation
unfolding distinct baseline_serial is_stale
divergence expected_present baseline successful =
    let mismatches = filter (λ o. not (is_expected expected_present o)) successful in
    let serials = distinct (present (map (λ o. o.soa_serial) successful)) in
    let baseline_serials = distinct (present (map (baseline_serial baseline) mismatches)) in
    if any (is_stale baseline) mismatches
    then (if not (length mismatches == length successful)
          || ltb 1 (length serials)
          || ltb 1 (length baseline_serials)
        then provider_replica_divergence
        else still_propagating)
    else if ltb 1 (length serials)
    then provider_replica_divergence
    else if expected_present
    then wapi_authoritative_divergence
    else still_propagating

abbrev pub soa_fails_protocol : Observation → Bool
soa_fails_protocol o = elim o.soa_status [ soa_protocol_failure ↦ true | _ ↦ false ]

abbrev pub soa_fails_network : Observation → Bool
soa_fails_network o = elim o.soa_status [ soa_network_failure ↦ true | _ ↦ false ]

unfoldable pub evaluate_successful : Bool → Option Snapshot → List Observation → Evaluation
unfolding divergence
evaluate_successful expected_present baseline successful =
    if any soa_fails_protocol successful
    then protocol_failed
    else if any soa_fails_network successful
    then network_failed
    else if all (is_expected expected_present) successful
    then pass
    else divergence expected_present baseline successful

unfoldable pub evaluate_authoritative_txt_snapshot : Snapshot → Bool → Option Snapshot → Evaluation
unfolding distinct group_failure first_failure evaluate_successful
evaluate_authoritative_txt_snapshot snapshot expected_present baseline =
    if length snapshot.observations == 0
    then network_failed
    else or_else
        (first_failure snapshot.observations
          (distinct (map (λ o. o.authority) snapshot.observations)))
        (evaluate_successful expected_present baseline (filter is_answered snapshot.observations))

-- What the wait throws: a `WedosDnsObservationError`, or another error with its message.
pub data Fault : Type 0 where
  observation : (snapshot : Snapshot) (evaluation : Evaluation) → Fault
  other : (message : Text) → Fault

-- The name servers and the clock, by the milliseconds since the start: what an observation begun at a
-- moment sees, how long it takes, and how much longer than asked a sleep lasts.
pub record Surroundings : Type 0 where
  pub seen : ℕ → Result Fault Snapshot
  pub took : ℕ → ℕ
  pub overslept : ℕ → ℕ

abbrev pub is_pass : Evaluation → Bool
is_pass pass = true
is_pass still_propagating = false
is_pass provider_replica_divergence = false
is_pass wapi_authoritative_divergence = false
is_pass network_failed = false
is_pass protocol_failed = false

module _ (s : Surroundings) (expected_present : Bool) (baseline : Option Snapshot) where
  -- One `try` of the loop: none, or the error that is kept.
  unfoldable pub failure_at : ℕ → Option Fault
  unfolding evaluate_authoritative_txt_snapshot
  failure_at now = elim (s.seen now) [
    | err fault ↦ some fault
    | ok snapshot ↦
        let evaluation = evaluate_authoritative_txt_snapshot snapshot expected_present baseline in
        if is_pass evaluation then none else some (observation snapshot evaluation)
  ]

  -- What is thrown behind the loop.
  unfoldable pub timed_out : Fault → Fault
  timed_out (observation snapshot evaluation) = observation snapshot evaluation
  timed_out (other message) =
      other (codes "wedos_dns_authoritative_propagation_timeout:" ++ message)

  -- The loop, which none ends for want of fuel.
  unfoldable pub wait_loop : ℕ → ℕ → ℕ → ℕ → Fault → Option (Result Fault (Unit {0}))
  unfolding failure_at timed_out
  wait_loop zero timeout delay now last = none
  wait_loop (suc fuel) timeout delay now last =
      if ltb now timeout
      then elim (failure_at now) [
        | none ↦ some (ok tt)
        | some fault ↦
            let after = now + s.took now in
            let next =
              wait_loop fuel timeout delay (after + min delay (timeout - after) + s.overslept after)
                fault in
            if leb timeout after then some (err (timed_out fault)) else next
      ]
      else some (err (timed_out last))

  -- `waitForAuthoritativeTxt` once the endpoints are known; the timeout is at most 900 seconds, and the
  -- delay between two observations is 5 seconds.
  unfoldable pub wait_for_authoritative_txt : ℕ → Option (Result Fault (Unit {0}))
  unfolding wait_loop
  wait_for_authoritative_txt timeout =
      wait_loop 182 timeout 5000 0 (other (codes "wedos_dns_authoritative_propagation_unknown"))
