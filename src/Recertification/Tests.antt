-- ===== src/Recertification/Tests.antt =====
-- Runs of recertification.ts on a revision that was approved for 180 days.
use kajovo_cml.Prelude.{ℕ, ◌+◌, ◌-◌, ◌*◌, ◌≤◌, ◌<◌, ◌≡◌, refl, ◌↔◌, some, arith, true, string_eq}
use kajovo_cml.Recertification.{
  RecertificationInput, at_ms, whole, day_ms, valid, warning, grace, suspended,
  evaluate_recertification, evaluate_interval, evaluate_dates, phase_at, rejected,
  review_interval_drift,
}
use kajovo_cml.Recertification.Windows.{IsReviewed, InWindow, phase-InWindow}
use kajovo_cml.Recertification.Serving.{permissions-IsReviewed}

abbrev approved_ms : ℕ
approved_ms = 1783209600000

abbrev due_ms : ℕ
due_ms = 1798761600000

abbrev revision : RecertificationInput
revision = record {
  active_revision_id = some 1;
  validation_state = some "VALID";
  approved_at = at_ms approved_ms;
  review_due_at = at_ms due_ms;
  review_interval_days = whole 180;
}

boundaries :
    ((evaluate_recertification revision (due_ms - 30 * day_ms - 1)).phase ≡ valid)
    × ((evaluate_recertification revision (due_ms - 30 * day_ms)).phase ≡ warning)
    × ((evaluate_recertification revision (due_ms - 1)).phase ≡ warning)
    × ((evaluate_recertification revision due_ms).phase ≡ grace)
    × ((evaluate_recertification revision (due_ms + 30 * day_ms - 1)).phase ≡ grace)
    × ((evaluate_recertification revision (due_ms + 30 * day_ms)).phase ≡ suspended)
unfolding evaluate_recertification evaluate_interval evaluate_dates phase_at
boundaries = (refl, refl, refl, refl, refl, refl)

drifted :
    (evaluate_recertification (record revision { review_interval_days = whole 365 }) due_ms).reason
    ≡ some review_interval_drift
unfolding evaluate_recertification evaluate_interval evaluate_dates rejected
drifted = refl

revision-IsReviewed : IsReviewed revision due_ms
revision-IsReviewed = record {
  approved = approved_ms;
  days = 180;
  has_revision = refl;
  state_valid = refl;
  has_days = refl;
  days_pos = omega arith;
  days_capped = omega arith;
  approved_on = refl;
  due_on = refl;
  no_drift = omega arith;
}

phase-InWindow_example :
    ((evaluate_recertification revision due_ms).phase ≡ grace)
    ↔ ((due : ℕ) × IsReviewed revision due × InWindow grace due due_ms)
phase-InWindow_example = phase-InWindow grace revision due_ms (λ e. cc)

permissions-IsReviewed_example :
    let d = evaluate_recertification revision due_ms in
    ((d.can_serve_existing ≡ true)
      ↔ ((due : ℕ) × IsReviewed revision due × (due_ms < due + 30 * day_ms)))
    × ((d.can_activate ≡ true) ↔ ((due : ℕ) × IsReviewed revision due × (due_ms < due)))
    × ((d.should_suspend ≡ true)
        ↔ ((due : ℕ) × IsReviewed revision due × (due + 30 * day_ms ≤ due_ms)))
permissions-IsReviewed_example = permissions-IsReviewed revision due_ms
