-- ===== src/Alerts/Order.antt =====
-- Which delivery a worker takes (apps/server/src/domain/alerts.ts).
use kajovo_cml.Prelude.{
  ℕ, suc, ◌≤◌, Bool, true, false, not, ◌&&◌, ◌||◌, ◌==◌, nat_eq, some, List, [], ◌∷◌, find, All,
  All-map, ltb, leb, ◌≡◌, refl, subst, ap, ◌∙◌, inl, inr, ◌⊎◌, ◌<◌, arith, Bool-cases, Option-cases,
  leb→le, le→leb, some_inj, sym,
}
use mathlib.Core.List.{Mem, mem-cons_self, mem-cons_of_mem}
use kajovo_cml.Alerts.Store.{
  AlertSeverity, warning, high, critical, AlertRow, DeliveryRow, AlertStore,
}
use kajovo_cml.Alerts.Deliver.{
  Candidate, candidates, comes_before, is_open, Worker, DeliveryLease, lease_of, lease_delivery,
  severity_rank,
}
use kajovo_cml.Alerts.Choice.{
  IsDue, Unpreceded, All-first_candidate, first_candidate-Unpreceded, lease-first_candidate,
}

-- How urgent an alert is.
abbrev pub urgency : AlertSeverity → ℕ
urgency warning = 1
urgency high = 2
urgency critical = 3

-- A delivery of an alert waits in front of another, or on a level with it.
abbrev pub Precedes : AlertRow → DeliveryRow → AlertRow → DeliveryRow → Type 0
Precedes a d b e =
    (urgency b.severity < urgency a.severity)
    ⊎ ((urgency b.severity ≡ urgency a.severity) × (d.next_attempt_at ≤ e.next_attempt_at))

comes_before-Precedes :
    (a b : AlertRow) (d e : DeliveryRow)
    → comes_before (record { delivery = e; alert = b }) (record { delivery = d; alert = a }) ≡ false
    → Precedes a d b e
comes_before-Precedes a b d e h = ranked a.severity b.severity h
  where
    ranked :
        (s t : AlertSeverity)
        → (ltb (severity_rank t) (severity_rank s)
            || (severity_rank t == severity_rank s && ltb e.next_attempt_at d.next_attempt_at))
          ≡ false
        → (urgency t < urgency s)
          ⊎ ((urgency t ≡ urgency s) × (d.next_attempt_at ≤ e.next_attempt_at))
    ranked warning warning k = inr (refl, ground arith)
    ranked warning high k = cc
    ranked warning critical k = cc
    ranked high warning k = inl (omega arith)
    ranked high high k = inr (refl, ground arith)
    ranked high critical k = cc
    ranked critical warning k = inl (omega arith)
    ranked critical high k = inl (omega arith)
    ranked critical critical k = inr (refl, ground arith)

-- Every delivery of a list that is due, and that names an alert, waits behind `d` or on a level with it.
abbrev pub AreBehind :
    List AlertRow → (ℕ → Bool) → ℕ → AlertRow → DeliveryRow → List DeliveryRow → Type 0
AreBehind alerts locked now a d ds =
    All
      (λ (e : DeliveryRow).
        (b : AlertRow)
        → find (λ (x : AlertRow). x.id == e.alert_id) alerts ≡ some b
        → IsDue locked now e
        → Precedes a d b e)
      ds

Stands : List AlertRow → (ℕ → Bool) → ℕ → List DeliveryRow → Candidate → Type 0
Stands alerts locked now ds c =
    Mem c.delivery ds
    × (find (λ (a : AlertRow). a.id == c.delivery.alert_id) alerts ≡ some c.alert)
    × IsDue locked now c.delivery

candidates-Stands :
    (alerts : List AlertRow) (locked : ℕ → Bool) (now : ℕ) (ds : List DeliveryRow)
    → All (Stands alerts locked now ds) (candidates alerts locked now ds)
unfolding candidates Stands
candidates-Stands alerts locked now [] = tt
candidates-Stands alerts locked now (d ∷ ds) =
    let rest : All (Stands alerts locked now (d ∷ ds)) (candidates alerts locked now ds) =
      All-map (Stands alerts locked now ds) (Stands alerts locked now (d ∷ ds))
        (λ c (m, found, due). (mem-cons_of_mem d m, found, due)) (candidates alerts locked now ds)
        (candidates-Stands alerts locked now ds) in
    elim (Bool-cases (is_open d.state && leb d.next_attempt_at now && not (locked d.id))) [
      | inr e ↦ rw e rest
      | inl e ↦
          let due : IsDue locked now d = record {
            waiting = ground arith;
            reached = leb→le d.next_attempt_at now (ground arith);
            free = ground arith;
          } in
          elim (Option-cases (find (λ (a : AlertRow). a.id == d.alert_id) alerts)) [
            | inl missing ↦ rw (e, missing) rest
            | inr (a, found) ↦ rw (e, found) ((mem-cons_self, found, due), rest)
          ]
    ]

IsDue-tests :
    (locked : ℕ → Bool) (now : ℕ) (d : DeliveryRow)
    → IsDue locked now d
    → (is_open d.state && leb d.next_attempt_at now && not (locked d.id)) ≡ true
IsDue-tests locked now d due =
    let reached = le→leb d.next_attempt_at now due.reached in
    rw (due.waiting, reached, due.free) refl

Unpreceded-AreBehind :
    (alerts : List AlertRow) (locked : ℕ → Bool) (now : ℕ) (a : AlertRow) (d : DeliveryRow)
    (ds : List DeliveryRow)
    → Unpreceded (candidates alerts locked now ds) (record { delivery = d; alert = a })
    → AreBehind alerts locked now a d ds
unfolding candidates Unpreceded
Unpreceded-AreBehind alerts locked now a d [] h = tt
Unpreceded-AreBehind alerts locked now a d (e ∷ ds) h =
    let c : Candidate = record { delivery = d; alert = a } in
    let open_case =
      Bool-cases (is_open e.state && leb e.next_attempt_at now && not (locked e.id)) in
    let alert_case = Option-cases (find (λ (x : AlertRow). x.id == e.alert_id) alerts) in
    elim open_case [
      | inr k ↦
          let skipped : candidates alerts locked now (e ∷ ds) ≡ candidates alerts locked now ds =
            rw k refl in
          (
            λ b found due. cc (IsDue-tests locked now e due),
            Unpreceded-AreBehind alerts locked now a d ds (subst (λ cs. Unpreceded cs c) skipped h),
          )
      | inl k ↦ elim alert_case [
        | inl missing ↦
            let skipped : candidates alerts locked now (e ∷ ds) ≡ candidates alerts locked now ds =
              rw (k, missing) refl in
            (
              λ b found due. cc,
              Unpreceded-AreBehind alerts locked now a d ds
                  (subst (λ cs. Unpreceded cs c) skipped h),
            )
        | inr (x, found) ↦
            let taken : candidates alerts locked now (e ∷ ds)
                ≡ record { delivery = e; alert = x } ∷ candidates alerts locked now ds =
              rw (k, found) refl in
            let (first, rest) = subst (λ cs. Unpreceded cs c) taken h in
            (
              λ b same due.
                  let named : x ≡ b = some_inj (sym found ∙ same) in
                  subst (λ y. Precedes a d y e) named (comes_before-Precedes a x d e first),
              Unpreceded-AreBehind alerts locked now a d ds rest,
            )
      ]
    ]

-- A worker leases a delivery of the table that is due and that nobody has locked, together with its
-- alert, and the lease counts one attempt more than the row. No due delivery of the table, of those
-- whose alert is in its table too, is more urgent by the severity of the alert, and none that is as urgent has been
-- due since an earlier moment.
pub lease_delivery-first :
    (w : Worker) (db : AlertStore) (now : ℕ) (l : DeliveryLease)
    → (lease_delivery w db now).1 ≡ some l
    → (d : DeliveryRow) × (a : AlertRow) × Mem d db.deliveries
      × (find (λ (x : AlertRow). x.id == d.alert_id) db.alerts ≡ some a)
      × IsDue w.locked now d
      × (l.id ≡ d.id)
      × (l.attempt_count ≡ suc d.attempt_count)
      × AreBehind db.alerts w.locked now a d db.deliveries
unfolding lease_of Stands
lease_delivery-first w db now l h =
    let (c, found, same) = lease-first_candidate w db now l h in
    let cs = candidates db.alerts w.locked now db.deliveries in
    let (m, alert, due) =
      All-first_candidate (Stands db.alerts w.locked now db.deliveries) cs c
        (candidates-Stands db.alerts w.locked now db.deliveries) found in
    (
      c.delivery,
      c.alert,
      m,
      alert,
      due,
      ap (λ (x : DeliveryLease). x.id) same,
      ap (λ (x : DeliveryLease). x.attempt_count) same ∙ omega arith,
      Unpreceded-AreBehind db.alerts w.locked now c.alert c.delivery db.deliveries
          (first_candidate-Unpreceded cs c found),
    )
