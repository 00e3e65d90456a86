-- ===== src/Alerts/Unique.antt =====
-- No trouble has two live alerts (apps/server/src/domain/alerts.ts).
use kajovo_cml.Prelude.{
  ℕ, suc, ◌+◌, ◌≤◌, Bool, true, false, ◌==◌, nat_eq, string_eq, Option, none, List, [], ◌∷◌, String,
  find, count_where, count_where-update_where_same, count_where-update_where_le, find-none-count,
  option_beq_iff, string_eq, length, ◌≡◌, refl, sym, take, map, ◌↔◌, ◌⊎◌, inl, inr, arith,
  Bool-cases, Option-cases,
}
use kajovo_cml.Audit.{append_audit}
use kajovo_cml.Alerts.Store.{
  DeliveryRow, primary, backup, AlertRow, AlertStore, Channel, is_live, is_live_for,
}
use kajovo_cml.Alerts.Raise.{
  RaiseAlert, FreshIds, CloseAlert, seen_again, new_alert, closed_row, reopened, is_expired,
  existing_alert, raise_alert, close_alert, expire_alert_suppressions,
}

-- At most one live alert for each server, managed service and type.
abbrev pub IsUnique : AlertStore → Type 0
IsUnique db = (s m : Option ℕ) (t : String) → count_where (is_live_for s m t) db.alerts ≤ 1

same_subject :
    (now id : ℕ) (alert : RaiseAlert) (s m : Option ℕ) (t : String) (alerts : List AlertRow)
    → is_live_for s m t (new_alert now id alert) ≡ true
    → find (is_live_for alert.server_id alert.managed_service_id alert.alert_type) alerts ≡ none
    → count_where (is_live_for s m t) alerts ≡ 0
same_subject now id alert s m t alerts h missing =
    let server : alert.server_id ≡ s = (option_beq_iff alert.server_id s).0 (ground arith) in
    let managed : alert.managed_service_id ≡ m =
      (option_beq_iff alert.managed_service_id m).0 (ground arith) in
    let kind : alert.alert_type ≡ t = (string_eq.beq_iff alert.alert_type t).0 (ground arith) in
    find-none-count (is_live_for s m t) alerts (rw (sym server, sym managed, sym kind) missing)

raise-IsUnique :
    (db : AlertStore) (now : ℕ) (fresh : FreshIds) (alert : RaiseAlert)
    → IsUnique db
    → IsUnique (raise_alert db now fresh alert).0
unfolding raise_alert
raise-IsUnique db now fresh alert v s m t = elim (Option-cases (existing_alert db alert)) [
  | inr (existing, found) ↦
      let same =
        count_where-update_where_same (is_live_for s m t) (λ (a : AlertRow). a.id == existing.id)
          (seen_again now alert) (λ a. refl) db.alerts in
      rw (found, raise_alert) (rw same (v s m t))
  | inl missing ↦ elim (Bool-cases (is_live_for s m t (new_alert now fresh.alert alert))) [
    | inl e ↦
        rw (missing, raise_alert, e)
          (rw (same_subject now fresh.alert alert s m t db.alerts e missing) (omega arith))
    | inr e ↦ rw (missing, raise_alert, e) (v s m t)
  ]
]

close-IsUnique :
    (db : AlertStore) (now : ℕ) (params : CloseAlert)
    → IsUnique db
    → IsUnique (close_alert db now params)
unfolding close_alert
close-IsUnique db now params v s m t =
    let fewer =
      count_where-update_where_le (is_live_for s m t)
        (is_live_for params.server_id params.managed_service_id params.alert_type) (closed_row now)
        (λ a h. inl (ground arith)) db.alerts in
    omega (arith, fewer, v s m t)

expired_live : (now : ℕ) (a : AlertRow) → is_expired now a ≡ true → is_live a.status ≡ true
expired_live now a h = ground arith

true_or_not : (b : Bool) → (b ≡ false) ⊎ (b ≡ true)
true_or_not b = ground arith

expire-IsUnique :
    (db : AlertStore) (now correlation : ℕ)
    → IsUnique db
    → IsUnique (expire_alert_suppressions db now correlation).0
unfolding expire_alert_suppressions
expire-IsUnique db now correlation v s m t =
    let fewer =
      count_where-update_where_le (is_live_for s m t) (is_expired now) (reopened now)
        (λ a h. rw (expired_live now a h) (true_or_not _)) db.alerts in
    omega (arith, fewer, v s m t)

-- What other code of the server does with alerts.
pub data AlertOperation : Type 0 where
  raise : FreshIds → RaiseAlert → AlertOperation
  close : CloseAlert → AlertOperation
  expire : ℕ → AlertOperation

abbrev pub run_alert : AlertStore → ℕ × AlertOperation → AlertStore
run_alert db (now, raise fresh alert) = (raise_alert db now fresh alert).0
run_alert db (now, close params) = close_alert db now params
run_alert db (now, expire correlation) = (expire_alert_suppressions db now correlation).0

pub run_alerts : AlertStore → List (ℕ × AlertOperation) → AlertStore
run_alerts db [] = db
run_alerts db (o ∷ os) = run_alerts (run_alert db o) os

-- However alerts are raised, closed and come out of their suppression, there is at most one live alert
-- for each server, managed service and type, if there was at most one before.
pub run_alerts-IsUnique :
    (db : AlertStore) (os : List (ℕ × AlertOperation)) → IsUnique db → IsUnique (run_alerts db os)
unfolding run_alerts
run_alerts-IsUnique db [] v = v
run_alerts-IsUnique db ((now, raise fresh alert) ∷ os) v =
    run_alerts-IsUnique (run_alert db (now, raise fresh alert)) os
      (raise-IsUnique db now fresh alert v)
run_alerts-IsUnique db ((now, close params) ∷ os) v =
    run_alerts-IsUnique (run_alert db (now, close params)) os (close-IsUnique db now params v)
run_alerts-IsUnique db ((now, expire correlation) ∷ os) v =
    run_alerts-IsUnique (run_alert db (now, expire correlation)) os
      (expire-IsUnique db now correlation v)

-- An alert is new exactly when there is no live one for its subject; only then are there two more
-- deliveries, one for each channel and both without an attempt, and an event in the audit log.
pub raise_alert_effects :
    (db : AlertStore) (now : ℕ) (fresh : FreshIds) (alert : RaiseAlert)
    → let (after, id, created) = raise_alert db now fresh alert in
      ((created ≡ true) ↔ (existing_alert db alert ≡ none))
      × ((created ≡ true) ⊎ ((after.deliveries ≡ db.deliveries) × (after.audit ≡ db.audit)))
      × ((created ≡ false)
          ⊎ ((length after.deliveries ≡ 2 + length db.deliveries)
              × (map {B = ℕ × Channel × ℕ}
                    (λ (d : DeliveryRow). (d.alert_id, d.channel, d.attempt_count))
                    (take 2 after.deliveries)
                  ≡ (id, primary, 0) ∷ (id, backup, 0) ∷ [])
              × (length after.audit ≡ suc (length db.audit))))
unfolding raise_alert append_audit
raise_alert_effects db now fresh alert = elim (Option-cases (existing_alert db alert)) [
  | inl missing ↦
      rw (missing, raise_alert) ((λ h. refl, λ h. refl), inl refl, inr (omega arith, refl, refl))
  | inr (existing, found) ↦ rw (found, raise_alert) ((λ h. cc, λ h. cc), inr (refl, refl), inl refl)
]
