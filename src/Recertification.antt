-- ===== src/Recertification.antt =====
-- apps/server/src/domain/recertification.ts: whether a registered server may serve and be
-- activated, from the review dates of its active revision.
pub mod Windows
pub mod Serving
mod Tests
use kajovo_cml.Prelude.{
  ℕ, ◌+◌, ◌-◌, ◌*◌, ◌/◌, Bool, true, false, ◌||◌, Option, none, some, String, ltb, if◌then◌else◌,
  is_some, ◌==◌, string_eq,
}

pub data RecertificationPhase : Type 0 where
  valid warning grace suspended invalid : RecertificationPhase

-- The constants of `reason`.
pub data Reason : Type 0 where
  active_registration_revision_missing : Reason
  registration_revision_invalid : Reason
  review_interval_invalid : Reason
  review_approval_missing : Reason
  review_due_at_invalid : Reason
  review_interval_drift : Reason
  recertification_due_within_30_days : Reason
  recertification_overdue_grace : Reason
  recertification_overdue_30_days : Reason

-- A `string | null` that is read by `new Date(…)`: missing or empty, a text with no date in it, or
-- the milliseconds since the epoch that `getTime` gives.
pub data DateText : Type 0 where
  missing : DateText
  unparsable : String → DateText
  at_ms : ℕ → DateText

-- A `number | null`: `whole n` is n, `negative n` is -(n + 1), `fractional` fails `Number.isInteger`.
pub data NumberOrNull : Type 0 where
  null fractional : NumberOrNull
  whole : ℕ → NumberOrNull
  negative : ℕ → NumberOrNull

pub record RecertificationInput : Type 0 where
  pub active_revision_id : Option ℕ
  pub validation_state : Option String
  pub approved_at : DateText
  pub review_due_at : DateText
  pub review_interval_days : NumberOrNull

pub record RecertificationDecision : Type 0 where
  pub phase : RecertificationPhase
  pub can_serve_existing : Bool
  pub can_activate : Bool
  pub should_suspend : Bool
  pub reason : Option Reason
  pub review_due_at : DateText
  pub seconds_to_boundary : Option ℕ

abbrev pub day_ms : ℕ
day_ms = 86400000

unfoldable pub rejected : Reason → DateText → RecertificationDecision
rejected reason review_due_at = record {
  phase = invalid;
  can_serve_existing = false;
  can_activate = false;
  should_suspend = false;
  reason = some reason;
  review_due_at = review_due_at;
  seconds_to_boundary = none;
}

-- `Math.ceil(ms / 1_000)`.
abbrev pub ceil_seconds : ℕ → ℕ
ceil_seconds ms = (ms + 999) / 1000

-- `Math.abs(a - b)`.
abbrev pub distance : ℕ → ℕ → ℕ
distance a b = (a - b) + (b - a)

-- The phases once the dates are known. `warningAt` is negative where `-` stops at 0, and no
-- moment lies before either.
unfoldable pub phase_at : ℕ → ℕ → RecertificationDecision
phase_at due now =
    let warning_at = due - 30 * day_ms in
    let suspended_at = due + 30 * day_ms in
    if ltb now warning_at
    then record {
      phase = valid;
      can_serve_existing = true;
      can_activate = true;
      should_suspend = false;
      reason = none;
      review_due_at = at_ms due;
      seconds_to_boundary = some (ceil_seconds (warning_at - now));
    }
    else if ltb now due
    then record {
      phase = warning;
      can_serve_existing = true;
      can_activate = true;
      should_suspend = false;
      reason = some recertification_due_within_30_days;
      review_due_at = at_ms due;
      seconds_to_boundary = some (ceil_seconds (due - now));
    }
    else if ltb now suspended_at
    then record {
      phase = grace;
      can_serve_existing = true;
      can_activate = false;
      should_suspend = false;
      reason = some recertification_overdue_grace;
      review_due_at = at_ms due;
      seconds_to_boundary = some (ceil_seconds (suspended_at - now));
    }
    else record {
      phase = suspended;
      can_serve_existing = false;
      can_activate = false;
      should_suspend = true;
      reason = some recertification_overdue_30_days;
      review_due_at = at_ms due;
      seconds_to_boundary = some 0;
    }

-- The checks on the two dates, in the source's order.
unfoldable pub evaluate_dates : DateText → DateText → ℕ → ℕ → RecertificationDecision
evaluate_dates missing due days now = rejected review_approval_missing due
evaluate_dates (unparsable s) due days now = rejected review_approval_missing due
evaluate_dates (at_ms approved) missing days now = rejected review_due_at_invalid missing
evaluate_dates (at_ms approved) (unparsable s) days now =
    rejected review_due_at_invalid (unparsable s)
evaluate_dates (at_ms approved) (at_ms due) days now =
    if ltb 60000 (distance (approved + days * day_ms) due)
    then rejected review_interval_drift (at_ms due)
    else phase_at due now

unfoldable pub evaluate_interval : NumberOrNull → DateText → DateText → ℕ → RecertificationDecision
evaluate_interval null approved due now = rejected review_interval_invalid due
evaluate_interval fractional approved due now = rejected review_interval_invalid due
evaluate_interval (negative n) approved due now = rejected review_interval_invalid due
evaluate_interval (whole days) approved due now =
    if ltb days 1 || ltb 365 days
    then rejected review_interval_invalid due
    else evaluate_dates approved due days now

-- `validationState !== "VALID"`.
abbrev pub is_valid_state : Option String → Bool
is_valid_state none = false
is_valid_state (some s) = s == "VALID"

unfoldable pub evaluate_recertification : RecertificationInput → ℕ → RecertificationDecision
evaluate_recertification input now =
    if is_some input.active_revision_id
    then (if is_valid_state input.validation_state
        then evaluate_interval input.review_interval_days input.approved_at input.review_due_at now
        else rejected registration_revision_invalid input.review_due_at)
    else rejected active_registration_revision_missing input.review_due_at
