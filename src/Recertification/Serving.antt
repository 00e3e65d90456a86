-- ===== src/Recertification/Serving.antt =====
-- What the decision of recertification.ts allows, and how it changes with time.
use kajovo_cml.Prelude.{
  ℕ, ◌+◌, ◌*◌, ◌≤◌, ◌<◌, ◌≡◌, refl, ◌≢◌, ◌↔◌, ◌⊎◌, inl, inr, none, some, arith, true, false,
}
use kajovo_cml.Recertification.{
  RecertificationPhase, valid, warning, grace, suspended, invalid, RecertificationInput,
  RecertificationDecision, DateText, missing, unparsable, at_ms, NumberOrNull, null, fractional,
  whole, negative, day_ms, phase_at, evaluate_recertification, rejected, evaluate_interval,
  evaluate_dates,
}
use kajovo_cml.Recertification.Windows.{
  IsReviewed, evaluated-IsReviewed, evaluate_recertification-IsReviewed,
}

phase-cases : (p : RecertificationPhase) → (p ≡ invalid) ⊎ (p ≢ invalid)
phase-cases invalid = inl refl
phase-cases valid = inr (λ e. cc)
phase-cases warning = inr (λ e. cc)
phase-cases grace = inr (λ e. cc)
phase-cases suspended = inr (λ e. cc)

-- What a decision allows when its phase is `invalid`.
abbrev ClosedIfInvalid : RecertificationDecision → Type 0
ClosedIfInvalid d =
    d.phase ≡ invalid
    → (d.can_serve_existing ≡ false)
      × (d.can_activate ≡ false)
      × (d.should_suspend ≡ false)
      × (d.seconds_to_boundary ≡ none)

dates-ClosedIfInvalid :
    (a d : DateText) (days now : ℕ) → ClosedIfInvalid (evaluate_dates a d days now)
unfolding evaluate_dates rejected phase_at
dates-ClosedIfInvalid missing d days now h = (refl, refl, refl, refl)
dates-ClosedIfInvalid (unparsable s) d days now h = (refl, refl, refl, refl)
dates-ClosedIfInvalid (at_ms a) missing days now h = (refl, refl, refl, refl)
dates-ClosedIfInvalid (at_ms a) (unparsable s) days now h = (refl, refl, refl, refl)
dates-ClosedIfInvalid (at_ms a) (at_ms d) days now h = ground arith

interval-ClosedIfInvalid :
    (n : NumberOrNull) (a d : DateText) (now : ℕ) → ClosedIfInvalid (evaluate_interval n a d now)
unfolding evaluate_interval rejected
interval-ClosedIfInvalid null a d now h = (refl, refl, refl, refl)
interval-ClosedIfInvalid fractional a d now h = (refl, refl, refl, refl)
interval-ClosedIfInvalid (negative n) a d now h = (refl, refl, refl, refl)
interval-ClosedIfInvalid (whole n) a d now h = ground (arith, dates-ClosedIfInvalid a d n now)

evaluate-ClosedIfInvalid :
    (input : RecertificationInput) (now : ℕ) → ClosedIfInvalid (evaluate_recertification input now)
unfolding evaluate_recertification rejected
evaluate-ClosedIfInvalid input now h = ground (
  arith,
  interval-ClosedIfInvalid input.review_interval_days input.approved_at input.review_due_at now,
)

-- The permissions of a decision for a revision due at `due`.
abbrev Permits : RecertificationDecision → ℕ → ℕ → Type 0
Permits d due now =
    ((d.can_serve_existing ≡ true) ↔ (now < due + 30 * day_ms))
    × ((d.can_activate ≡ true) ↔ (now < due))
    × ((d.should_suspend ≡ true) ↔ (due + 30 * day_ms ≤ now))

phase_at-Permits : (due now : ℕ) → Permits (phase_at due now) due now
unfolding phase_at
phase_at-Permits due now = ground arith

reviewed-Permits :
    (input : RecertificationInput) (due now : ℕ)
    → IsReviewed input due
    → Permits (evaluate_recertification input now) due now
reviewed-Permits input due now r =
    rw (evaluate_recertification-IsReviewed input due now r) (phase_at-Permits due now)

-- A server may go on serving exactly when its active revision has been reviewed and is less than 30
-- days overdue, may be activated exactly when it has been reviewed and is not yet due, and is to be
-- suspended exactly when it has been reviewed and is 30 days overdue or more.
pub permissions-IsReviewed :
    (input : RecertificationInput) (now : ℕ)
    → let d = evaluate_recertification input now in
      ((d.can_serve_existing ≡ true)
        ↔ ((due : ℕ) × IsReviewed input due × (now < due + 30 * day_ms)))
      × ((d.can_activate ≡ true) ↔ ((due : ℕ) × IsReviewed input due × (now < due)))
      × ((d.should_suspend ≡ true) ↔ ((due : ℕ) × IsReviewed input due × (due + 30 * day_ms ≤ now)))
permissions-IsReviewed input now = elim (phase-cases (evaluate_recertification input now).phase) [
  | inl e ↦
      let closed = evaluate-ClosedIfInvalid input now e in
      (
        (λ h. cc (closed.0, h), λ w. (reviewed-Permits input w.0 now w.1).0.1 w.2),
        (λ h. cc (closed.1, h), λ w. (reviewed-Permits input w.0 now w.1).1.1 w.2),
        (λ h. cc (closed.2, h), λ w. (reviewed-Permits input w.0 now w.1).2.1 w.2),
      )
  | inr n ↦
      let (due, r) = evaluated-IsReviewed input now n in
      let p = reviewed-Permits input due now r in
      (
        (λ h. (due, r, p.0.0 h), λ w. (reviewed-Permits input w.0 now w.1).0.1 w.2),
        (λ h. (due, r, p.1.0 h), λ w. (reviewed-Permits input w.0 now w.1).1.1 w.2),
        (λ h. (due, r, p.2.0 h), λ w. (reviewed-Permits input w.0 now w.1).2.1 w.2),
      )
]

-- At `later` the phase is another one or the announced seconds are not over, and it is the same one
-- or less than a second of them is left.
abbrev pub Announced : RecertificationDecision → RecertificationDecision → ℕ → ℕ → ℕ → Type 0
Announced d d' now seconds later =
    ((d'.phase ≢ d.phase) ⊎ (later < now + seconds * 1000))
    × ((d'.phase ≡ d.phase) ⊎ (now + seconds * 1000 < later + 1000))

phase_at-Announced :
    (due now seconds later : ℕ)
    → (phase_at due now).phase ≢ suspended
    → (phase_at due now).seconds_to_boundary ≡ some seconds
    → now ≤ later
    → Announced (phase_at due now) (phase_at due later) now seconds later
unfolding phase_at
phase_at-Announced due now seconds later n e l = ground arith

-- Until a second before the announced `seconds_to_boundary` have passed the phase stays as it is,
-- and from the moment they have passed it is another one, unless the revision is suspended already.
pub seconds_to_boundary_exact :
    (input : RecertificationInput) (now later seconds : ℕ)
    → (evaluate_recertification input now).seconds_to_boundary ≡ some seconds
    → (evaluate_recertification input now).phase ≢ suspended
    → now ≤ later
    → Announced
        (evaluate_recertification input now)
        (evaluate_recertification input later)
        now
        seconds
        later
seconds_to_boundary_exact input now later seconds e n l =
    elim (phase-cases (evaluate_recertification input now).phase) [
      | inl i ↦ cc (e, (evaluate-ClosedIfInvalid input now i).3)
      | inr v ↦
          let (due, r) = evaluated-IsReviewed input now v in
          let same = evaluate_recertification-IsReviewed input due now r in
          rw (same, evaluate_recertification-IsReviewed input due later r)
            (phase_at-Announced due now seconds later (rw same at n) (rw same at e) l)
    ]
