-- ===== src/Recertification/Windows.antt =====
-- The four windows around the due date of a reviewed revision (recertification.ts).
use kajovo_cml.Prelude.{
  sym, ◌∙◌, ap, inl, inr, Option-cases, ℕ, ◌+◌, ◌*◌, ◌≤◌, ◌<◌, ◌≡◌, refl, ◌≢◌, ◌↔◌, some, arith,
  string_eq, is_some, true,
}
use text.Mathlib.TextEquality.{eq_iff}
use kajovo_cml.Recertification.{
  RecertificationDecision, missing, unparsable, null, fractional, negative, rejected,
  RecertificationPhase, valid, warning, grace, suspended, invalid, RecertificationInput, DateText,
  at_ms, NumberOrNull, whole, day_ms, distance, phase_at, evaluate_dates, evaluate_interval,
  evaluate_recertification,
}

-- An active, valid revision whose two dates agree with its review interval to the minute.
pub record IsReviewed (input : RecertificationInput) (due : ℕ) : Type 0 where
  pub approved : ℕ
  pub days : ℕ
  pub has_revision : is_some input.active_revision_id ≡ true
  pub state_valid : input.validation_state ≡ some "VALID"
  pub has_days : input.review_interval_days ≡ whole days
  pub days_pos : 1 ≤ days
  pub days_capped : days ≤ 365
  pub approved_on : input.approved_at ≡ at_ms approved
  pub due_on : input.review_due_at ≡ at_ms due
  pub no_drift : distance (approved + days * day_ms) due ≤ 60000

-- The moments at which a revision due at `due` is in a phase.
abbrev pub InWindow : RecertificationPhase → ℕ → ℕ → Type 0
InWindow valid due now = now + 30 * day_ms < due
InWindow warning due now = (due ≤ now + 30 * day_ms) × (now < due)
InWindow grace due now = (due ≤ now) × (now < due + 30 * day_ms)
InWindow suspended due now = due + 30 * day_ms ≤ now
InWindow invalid due now = ⊥

pub phase_at-InWindow :
    (p : RecertificationPhase) (due now : ℕ) → (phase_at due now).phase ≡ p ↔ InWindow p due now
unfolding phase_at
phase_at-InWindow valid due now = ground arith
phase_at-InWindow warning due now = ground arith
phase_at-InWindow grace due now = ground arith
phase_at-InWindow suspended due now = ground arith
phase_at-InWindow invalid due now = ground arith

-- The checks let a reviewed revision through to the windows.
pub evaluate_recertification-IsReviewed :
    (input : RecertificationInput) (due now : ℕ)
    → IsReviewed input due
    → evaluate_recertification input now ≡ phase_at due now
unfolding evaluate_recertification evaluate_interval evaluate_dates
evaluate_recertification-IsReviewed input due now r = ground (arith, eq_iff "VALID" "VALID")

dates_reviewed :
    (approved_at due_at : DateText) (days now : ℕ)
    → (evaluate_dates approved_at due_at days now).phase ≢ invalid
    → (approved : ℕ) × (due : ℕ) × (approved_at ≡ at_ms approved)
      × (due_at ≡ at_ms due)
      × (distance (approved + days * day_ms) due ≤ 60000)
unfolding evaluate_dates rejected
dates_reviewed missing due_at days now h = absurd (h refl)
dates_reviewed (unparsable s) due_at days now h = absurd (h refl)
dates_reviewed (at_ms a) missing days now h = absurd (h refl)
dates_reviewed (at_ms a) (unparsable s) days now h = absurd (h refl)
dates_reviewed (at_ms a) (at_ms d) days now h = (a, d, refl, refl, ground arith)

interval_reviewed :
    (interval : NumberOrNull) (approved_at due_at : DateText) (now : ℕ)
    → (evaluate_interval interval approved_at due_at now).phase ≢ invalid
    → (days : ℕ) × (interval ≡ whole days)
      × (1 ≤ days)
      × (days ≤ 365)
      × ((evaluate_dates approved_at due_at days now).phase ≢ invalid)
unfolding evaluate_interval rejected
interval_reviewed null a d now h = absurd (h refl)
interval_reviewed fractional a d now h = absurd (h refl)
interval_reviewed (negative n) a d now h = absurd (h refl)
interval_reviewed (whole n) a d now h = (n, refl, ground arith, ground arith, ground arith)

revision_reviewed :
    (input : RecertificationInput) (now : ℕ)
    → (evaluate_recertification input now).phase ≢ invalid
    → (is_some input.active_revision_id ≡ true)
      × (input.validation_state ≡ some "VALID")
      × ((evaluate_interval input.review_interval_days input.approved_at input.review_due_at
            now).phase
          ≢ invalid)
unfolding evaluate_recertification rejected
revision_reviewed input now h = elim (Option-cases input.validation_state) [
  | inl e ↦ absurd (h (ground arith))
  | inr (s, e) ↦ (
    ground (arith, eq_iff s "VALID"),
    ground (arith, eq_iff s "VALID"),
    ground (arith, eq_iff s "VALID"),
  )
]

-- Whatever is not rejected has been reviewed.
pub evaluated-IsReviewed :
    (input : RecertificationInput) (now : ℕ)
    → (evaluate_recertification input now).phase ≢ invalid
    → (due : ℕ) × IsReviewed input due
evaluated-IsReviewed input now h =
    let (has_revision, state_valid, in_interval) = revision_reviewed input now h in
    let (days, has_days, pos, capped, in_dates) =
      interval_reviewed input.review_interval_days input.approved_at input.review_due_at now
        in_interval in
    let (approved, due, approved_on, due_on, close) =
      dates_reviewed input.approved_at input.review_due_at days now in_dates in
    (
      due,
      record {
        approved = approved;
        days = days;
        has_revision = has_revision;
        state_valid = state_valid;
        has_days = has_days;
        days_pos = pos;
        days_capped = capped;
        approved_on = approved_on;
        due_on = due_on;
        no_drift = close;
      },
    )

-- A revision is in one of the four phases exactly when it has been reviewed and the moment lies in
-- the phase's window around its due date; any other input is in the phase `invalid`.
pub phase-InWindow :
    (p : RecertificationPhase) (input : RecertificationInput) (now : ℕ)
    → p ≢ invalid
    → ((evaluate_recertification input now).phase ≡ p)
      ↔ ((due : ℕ) × IsReviewed input due × InWindow p due now)
phase-InWindow p input now h = (
  λ e.
      let (due, r) = evaluated-IsReviewed input now (λ i. h (sym e ∙ i)) in
      (
        due,
        r,
        (phase_at-InWindow p due now).0 (
            ap (λ (d : RecertificationDecision). d.phase)
              (sym (evaluate_recertification-IsReviewed input due now r))
            ∙ e),
      ),
  λ w.
      ap (λ (d : RecertificationDecision). d.phase)
        (evaluate_recertification-IsReviewed input w.0 now w.1)
      ∙ (phase_at-InWindow p w.0 now).1 w.2,
)
