-- ===== src/Alerts/Attempts.antt =====
-- How often a webhook is tried, and how long the worker waits (apps/server/src/domain/alerts.ts).
use native.Mathlib.Nat.{pow-le-pow_right}
use kajovo_cml.Prelude.{
  ℕ, ◌+◌, ◌^◌, ◌≤◌, ◌<◌, min, true, false, ◌==◌, nat_eq, Option, none, some, List, String, All,
  All-update_where, update_where, ◌≡◌, refl, ap, sym, ◌⊎◌, inl, inr, arith, Option-cases, suc,
  subst, [], ◌∷◌, All-map,
}
use kajovo_cml.Alerts.Store.{DeliveryRow, AlertStore}
use kajovo_cml.Alerts.Deliver.{
  Candidate, candidates, first_candidate, Worker, DeliveryLease, DeliveryConfig, Outcome, lease_of,
  lease_delivery, attempted, attempt, settled, outcome_state, is_open, next_delay_seconds,
  deliver_next_alert, settle_delivery,
}
use kajovo_cml.Alerts.Choice.{IsDue, candidates-IsDue, All-first_candidate}

-- At most ten attempts and `n` more, and at most nine and `n` more while another one may follow.
abbrev pub InBounds : ℕ → DeliveryRow → Type 0
InBounds n d = (d.attempt_count ≤ 10 + n) × ((is_open d.state ≡ false) ⊎ (d.attempt_count ≤ 9 + n))

-- The rows between the two transactions: the leased ones count as many attempts as the lease.
Between : ℕ → DeliveryLease → DeliveryRow → Type 0
Between n l d =
    (((d.id == l.id) ≡ false) × InBounds n d)
    ⊎ (((d.id == l.id) ≡ true) × (d.attempt_count ≡ l.attempt_count))

outcome_state-retries :
    (failure : Option String) (attempts : ℕ)
    → (is_open (outcome_state failure attempts) ≡ false) ⊎ (attempts ≤ 9)
outcome_state-retries failure attempts = ground arith

closed_or_room :
    (n : ℕ) (failure : Option String) (attempts : ℕ)
    → (is_open (outcome_state failure attempts) ≡ false) ⊎ (attempts ≤ 9 + n)
closed_or_room n failure attempts = elim (outcome_state-retries failure attempts) [
  | inl closed ↦ inl closed
  | inr few ↦ inr (omega arith)
]

settled-InBounds :
    (n now : ℕ) (l : DeliveryLease) (outcome : Outcome) (ds : List DeliveryRow)
    → l.attempt_count ≤ 10 + n
    → All (Between n l) ds
    → All (InBounds n) (update_where (λ (d : DeliveryRow). d.id == l.id) (settled now l outcome) ds)
unfolding Between
settled-InBounds n now l outcome ds few h =
    let state = closed_or_room n outcome.failure l.attempt_count in
    All-update_where (Between n l) (InBounds n) (λ (d : DeliveryRow). d.id == l.id)
      (settled now l outcome)
      (λ d e b. elim b [ inl other ↦ cc (other.0) | inr same ↦ rw (same.1) (few, state) ])
      (λ d e b. elim b [ inl other ↦ other.1 | inr same ↦ cc (same.0) ]) ds h

leased-Between :
    (n now : ℕ) (l : DeliveryLease) (k count : ℕ) (ds : List DeliveryRow)
    → l.id ≡ k
    → l.attempt_count ≡ count
    → All (InBounds n) ds
    → All (Between n l) (update_where (λ (d : DeliveryRow). d.id == k) (attempted now count) ds)
unfolding Between
leased-Between n now l k count ds same counts h =
    All-update_where (InBounds n) (Between n l) (λ (d : DeliveryRow). d.id == k)
      (attempted now count) (λ d e b. inr (rw same e, sym counts)) (λ d e b. inl (rw same e, b)) ds
      h

room :
    (n : ℕ) (d : DeliveryRow) → is_open d.state ≡ true → InBounds n d → d.attempt_count + 1 ≤ 10 + n
room n d waiting b = elim (b.1) [ inl closed ↦ cc | inr few ↦ omega arith ]

lease_store :
    (w : Worker) (db : AlertStore) (now : ℕ) (c : Candidate)
    → first_candidate (candidates db.alerts w.locked now db.deliveries) ≡ some c
    → (lease_delivery w db now).0.deliveries
      ≡ update_where
          (λ (d : DeliveryRow). d.id == c.delivery.id)
          (attempted now (c.delivery.attempt_count + 1))
          db.deliveries
unfolding lease_delivery
lease_store w db now c found = rw (found, lease_delivery) refl

kept_store :
    (w : Worker) (db : AlertStore) (now : ℕ)
    → first_candidate (candidates db.alerts w.locked now db.deliveries) ≡ none
    → (lease_delivery w db now).0.deliveries ≡ db.deliveries
unfolding lease_delivery
kept_store w db now missing = rw (missing, lease_delivery) refl

deliver_found :
    (w : Worker) (post : String → String → DeliveryLease → Outcome) (config : DeliveryConfig)
    (db : AlertStore) (now correlation : ℕ) (c : Candidate)
    → first_candidate (candidates db.alerts w.locked now db.deliveries) ≡ some c
    → (deliver_next_alert w post config db now correlation).0.deliveries
      ≡ update_where
          (λ (d : DeliveryRow). d.id == (lease_of w c).id)
          (settled now (lease_of w c) (attempt post config (lease_of w c)))
          (update_where
            (λ (d : DeliveryRow). d.id == c.delivery.id)
            (attempted now (c.delivery.attempt_count + 1))
            db.deliveries)
unfolding deliver_next_alert
deliver_found w post config db now correlation c found =
    rw (found, deliver_next_alert, lease_delivery)
      (ap
        (update_where (λ (d : DeliveryRow). d.id == (lease_of w c).id)
          (settled now (lease_of w c) (attempt post config (lease_of w c))))
        (lease_store w db now c found))

deliver_missing :
    (w : Worker) (post : String → String → DeliveryLease → Outcome) (config : DeliveryConfig)
    (db : AlertStore) (now correlation : ℕ)
    → first_candidate (candidates db.alerts w.locked now db.deliveries) ≡ none
    → (deliver_next_alert w post config db now correlation).0.deliveries ≡ db.deliveries
unfolding deliver_next_alert
deliver_missing w post config db now correlation missing =
    rw (missing, deliver_next_alert, lease_delivery) (kept_store w db now missing)

candidate-InBounds :
    (n : ℕ) (w : Worker) (db : AlertStore) (now : ℕ) (c : Candidate)
    → All (InBounds n) db.deliveries
    → first_candidate (candidates db.alerts w.locked now db.deliveries) ≡ some c
    → c.delivery.attempt_count + 1 ≤ 10 + n
candidate-InBounds n w db now c h found =
    let (due, bounded) =
      All-first_candidate (λ (x : Candidate). IsDue w.locked now x.delivery × InBounds n x.delivery)
        (candidates db.alerts w.locked now db.deliveries) c
        (candidates-IsDue (InBounds n) db.alerts w.locked now db.deliveries h) found in
    room n c.delivery due.waiting bounded

deliver_next_alert-InBounds :
    (n : ℕ) (w : Worker) (post : String → String → DeliveryLease → Outcome)
    (config : DeliveryConfig) (db : AlertStore) (now correlation : ℕ)
    → All (InBounds n) db.deliveries
    → All (InBounds n) (deliver_next_alert w post config db now correlation).0.deliveries
unfolding lease_of
deliver_next_alert-InBounds n w post config db now correlation h =
    elim (Option-cases (first_candidate (candidates db.alerts w.locked now db.deliveries))) [
      | inl missing ↦ rw (deliver_missing w post config db now correlation missing) h
      | inr (c, found) ↦
          let l = lease_of w c in
          rw (deliver_found w post config db now correlation c found) (
            settled-InBounds n now l (attempt post config l) _
              (candidate-InBounds n w db now c h found)
              (leased-Between n now l c.delivery.id (c.delivery.attempt_count + 1) db.deliveries
                refl refl h))
    ]

more_room : (n : ℕ) (d : DeliveryRow) → InBounds n d → InBounds (suc n) d
more_room n d b =
    (omega arith, elim (b.1) [ inl closed ↦ inl closed | inr few ↦ inr (omega arith) ])

lease_delivery-InBounds :
    (n : ℕ) (w : Worker) (db : AlertStore) (now : ℕ)
    → All (InBounds n) db.deliveries
    → All (InBounds (suc n)) (lease_delivery w db now).0.deliveries
lease_delivery-InBounds n w db now h =
    elim (Option-cases (first_candidate (candidates db.alerts w.locked now db.deliveries))) [
      | inl missing ↦
          rw (kept_store w db now missing)
            (All-map (InBounds n) (InBounds (suc n)) (more_room n) db.deliveries h)
      | inr (c, found) ↦
          let few = candidate-InBounds n w db now c h found in
          rw (lease_store w db now c found) (
            All-update_where (InBounds n) (InBounds (suc n))
              (λ (d : DeliveryRow). d.id == c.delivery.id)
              (attempted now (c.delivery.attempt_count + 1))
              (λ d e b. (omega arith, inr (omega arith))) (λ d e b. more_room n d b) db.deliveries
              h)
    ]

settle_delivery-InBounds :
    (n : ℕ) (db : AlertStore) (now correlation : ℕ) (l : DeliveryLease) (outcome : Outcome)
    → All (InBounds n) db.deliveries
    → All (InBounds (suc n)) (settle_delivery db now correlation l outcome).deliveries
unfolding settle_delivery
settle_delivery-InBounds n db now correlation l outcome h =
    All-update_where (InBounds n) (InBounds (suc n)) (λ (d : DeliveryRow). d.id == l.id)
      (settled now l outcome) (λ d e b. (omega arith, inr (omega arith))) (λ d e b. more_room n d b)
      db.deliveries h

-- What workers do: one run from the lease to the settlement, the first transaction of one whose
-- worker then stops or is overtaken, and the last one of such a run.
pub data DeliveryStep : Type 0 where
  whole :
      Worker → (String → String → DeliveryLease → Outcome) → DeliveryConfig → ℕ → ℕ → DeliveryStep
  begun : Worker → ℕ → DeliveryStep
  finished : ℕ → ℕ → DeliveryLease → Outcome → DeliveryStep

unfoldable pub run_deliveries : AlertStore → List DeliveryStep → AlertStore
run_deliveries db [] = db
run_deliveries db (whole w post config now correlation ∷ steps) =
    run_deliveries (deliver_next_alert w post config db now correlation).0 steps
run_deliveries db (begun w now ∷ steps) = run_deliveries (lease_delivery w db now).0 steps
run_deliveries db (finished now correlation l outcome ∷ steps) =
    run_deliveries (settle_delivery db now correlation l outcome) steps

-- The steps that are not a whole run.
abbrev pub torn : List DeliveryStep → ℕ
torn [] = 0
torn (whole w post config now correlation ∷ steps) = torn steps
torn (begun w now ∷ steps) = suc (torn steps)
torn (finished now correlation l outcome ∷ steps) = suc (torn steps)

-- If no delivery has more than `10 + n` attempts, and none that may be tried again more than `9 + n`, then
-- after any sequence of runs no webhook has been tried more than `10 + n` times, and once more for each
-- transaction of a run that was broken off or overtaken between its two. So without these it is
-- ten times at most where it was before, whatever the network answers.
pub run_deliveries-InBounds :
    (n : ℕ) (db : AlertStore) (steps : List DeliveryStep)
    → All (InBounds n) db.deliveries
    → All (InBounds (torn steps + n)) (run_deliveries db steps).deliveries
unfolding run_deliveries
run_deliveries-InBounds n db [] h =
    let same : n ≡ 0 + n = omega arith in subst (λ m. All (InBounds m) db.deliveries) same h
run_deliveries-InBounds n db (whole w post config now correlation ∷ steps) h =
    run_deliveries-InBounds n (deliver_next_alert w post config db now correlation).0 steps
      (deliver_next_alert-InBounds n w post config db now correlation h)
run_deliveries-InBounds n db (begun w now ∷ steps) h =
    let shifted : torn steps + suc n ≡ suc (torn steps) + n = omega arith in
    subst (λ m. All (InBounds m) (run_deliveries (lease_delivery w db now).0 steps).deliveries)
      shifted
      (run_deliveries-InBounds (suc n) (lease_delivery w db now).0 steps
        (lease_delivery-InBounds n w db now h))
run_deliveries-InBounds n db (finished now correlation l outcome ∷ steps) h =
    let shifted : torn steps + suc n ≡ suc (torn steps) + n = omega arith in
    subst
      (λ m.
        All (InBounds m)
          (run_deliveries (settle_delivery db now correlation l outcome) steps).deliveries)
      shifted
      (run_deliveries-InBounds (suc n) (settle_delivery db now correlation l outcome) steps
        (settle_delivery-InBounds n db now correlation l outcome h))

-- The pause before another attempt is between one minute and one hour, and no shorter after more
-- attempts.
pub next_delay_seconds_bounds :
    (attempts more : ℕ)
    → 1 ≤ attempts
    → attempts ≤ more
    → (60 ≤ next_delay_seconds attempts)
      × (next_delay_seconds attempts ≤ 3600)
      × (next_delay_seconds attempts ≤ next_delay_seconds more)
unfolding next_delay_seconds
next_delay_seconds_bounds attempts more one less =
    let base : 0 < 2 = omega arith in
    let one_min : 1 ≤ min attempts 7 = omega arith in
    let both : min attempts 7 ≤ min more 7 = omega arith in
    let low : 2 ^ 1 ≤ 2 ^ min attempts 7 = pow-le-pow_right base one_min in
    let grows : 2 ^ min attempts 7 ≤ 2 ^ min more 7 = pow-le-pow_right base both in
    let two : 2 ^ 1 ≡ 2 = refl in (omega arith, omega arith, omega arith)
