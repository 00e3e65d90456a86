-- ===== src/Invocation/Accounts.antt =====
-- The statistics of the calls agree with their metrics (apps/server/src/domain/invocation.ts).
use kajovo_cml.Prelude.{
  ℕ, ◌+◌, Bool, true, false, ◌&&◌, ◌==◌, nat_eq, List, [], ◌∷◌, count_where, ◌≡◌, inl, inr, arith,
  if◌then◌else◌, bool_beq, after,
}
use kajovo_cml.Security.Redact.{Json}
use kajovo_cml.Alerts.Raise.{FreshIds}
use kajovo_cml.Invocation.{
  StatisticsRow, MetricRow, InvocationStore, BeginInput, FinalizeInput, FailureInput, count_outcome,
  begin_invocation, write_finalization, finalize_invocation, record_finalization_failure,
}
use kajovo_cml.Invocation.Once.{finalize_cases}

-- What the statistics say of a server: its successes, or its failures.
abbrev pub counted : Bool → ℕ → List StatisticsRow → ℕ
counted success k [] = 0
counted success k (s ∷ rows) =
    (if s.server_id == k then (if success then s.success_count else s.failure_count) else 0)
    + counted success k rows

-- The metrics of a server with a given outcome.
abbrev pub measured : Bool → ℕ → List MetricRow → ℕ
measured success k metrics =
    count_where (λ (m : MetricRow). (m.server_id == k) && bool_beq m.success success) metrics

-- For every server the statistics count its metrics.
abbrev pub IsBalanced : InvocationStore → Type 0
IsBalanced db =
    (success : Bool) (k : ℕ) → counted success k db.statistics ≡ measured success k db.metrics

counted-count_outcome :
    (now server_id k : ℕ) (outcome success : Bool) (rows : List StatisticsRow)
    → counted success k (count_outcome now server_id outcome rows)
      ≡ (if server_id == k && bool_beq outcome success then 1 else 0) + counted success k rows
unfolding count_outcome
counted-count_outcome now server_id k true true [] = ground arith
counted-count_outcome now server_id k true false [] = ground arith
counted-count_outcome now server_id k false true [] = ground arith
counted-count_outcome now server_id k false false [] = ground arith
counted-count_outcome now server_id k outcome success (s ∷ rows) =
    let rest = counted-count_outcome now server_id k outcome success rows in ground (arith, rest)

finalized-IsBalanced :
    (digest : Json → ℕ) (db : InvocationStore) (now : ℕ) (input : FinalizeInput)
    → IsBalanced db
    → IsBalanced (write_finalization digest db now input)
unfolding write_finalization
finalized-IsBalanced digest db now input v success k =
    let counts =
      counted-count_outcome now input.server_id k input.outcome.success success db.statistics in
    let before = v success k in ground (arith, counts, before)

pub data Step : Type 0 where
  begin : ℕ → BeginInput → Step
  finalize : FinalizeInput → Step
  fail : FreshIds → FailureInput → Step

abbrev pub run_step : (Json → ℕ) → InvocationStore → ℕ × Step → InvocationStore
run_step digest db (now, begin id input) = begin_invocation db id input
run_step digest db (now, finalize input) = after db (finalize_invocation digest db now input)
run_step digest db (now, fail fresh input) = record_finalization_failure db now fresh input

pub run_steps : (Json → ℕ) → InvocationStore → List (ℕ × Step) → InvocationStore
run_steps digest db [] = db
run_steps digest db (s ∷ steps) = run_steps digest (run_step digest db s) steps

run_step-IsBalanced :
    (digest : Json → ℕ) (db : InvocationStore) (s : ℕ × Step)
    → IsBalanced db
    → IsBalanced (run_step digest db s)
unfolding begin_invocation record_finalization_failure
run_step-IsBalanced digest db (now, begin id input) v = v
run_step-IsBalanced digest db (now, fail fresh input) v = v
run_step-IsBalanced digest db (now, finalize input) v = elim (finalize_cases digest db now input) [
  | inl done ↦ rw (done.1) (finalized-IsBalanced digest db now input v)
  | inr failed ↦ rw (failed.1) v
]

-- However calls begin, are finalized (or refused) and fail, the statistics count for each server as
-- many successes and failures as there are metrics of them, if they did before.
pub run_steps-IsBalanced :
    (digest : Json → ℕ) (db : InvocationStore) (steps : List (ℕ × Step))
    → IsBalanced db
    → IsBalanced (run_steps digest db steps)
unfolding run_steps
run_steps-IsBalanced digest db [] v = v
run_steps-IsBalanced digest db (s ∷ steps) v =
    run_steps-IsBalanced digest (run_step digest db s) steps (run_step-IsBalanced digest db s v)
