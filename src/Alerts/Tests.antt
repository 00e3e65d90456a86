-- ===== src/Alerts/Tests.antt =====
-- An alert with its two deliveries (apps/server/src/domain/alerts.ts).
use kajovo_cml.Prelude.{
  ℕ, suc, false, Option, none, some, [], ◌∷◌, String, All, ◌≡◌, refl, inr, arith, find, ◌==◌,
  nat_eq,
}
use mathlib.Core.List.{Mem}
use kajovo_cml.Security.Redact.{end, null}
use kajovo_cml.Alerts.Store.{AlertRow, DeliveryRow, AlertStore, high, primary}
use kajovo_cml.Alerts.Raise.{RaiseAlert, FreshIds, raise_alert}
use kajovo_cml.Alerts.Deliver.{Worker, DeliveryLease, DeliveryConfig, Outcome, lease_delivery}
use kajovo_cml.Alerts.Unique.{IsUnique, raise, expire, run_alerts, run_alerts-IsUnique}
use kajovo_cml.Alerts.Choice.{IsDue}
use kajovo_cml.Alerts.Order.{AreBehind, lease_delivery-first}
use kajovo_cml.Alerts.Attempts.{InBounds, begun, whole, run_deliveries, run_deliveries-InBounds}

abbrev empty : AlertStore
empty = record { alerts = []; deliveries = []; audit = [] }

abbrev alert : RaiseAlert
alert = record {
  server_id = some 4;
  managed_service_id = none;
  severity = high;
  alert_type = "monitoring.tls";
  title = "tls";
  detail = end;
  correlation_id = 6;
}

abbrev fresh : FreshIds
fresh = record {
  alert = 1;
  primary_delivery = 2;
  primary_key = 3;
  backup_delivery = 4;
  backup_key = 5;
}

run_alerts-IsUnique_example :
    IsUnique
      (run_alerts empty ((10, raise fresh alert) ∷ (11, raise fresh alert) ∷ (12, expire 7) ∷ []))
run_alerts-IsUnique_example =
    run_alerts-IsUnique empty
      ((10, raise fresh alert) ∷ (11, raise fresh alert) ∷ (12, expire 7) ∷ [])
      (λ s m t. omega arith)

abbrev raised : AlertStore
unfolding raise_alert
raised = (raise_alert empty 10 fresh alert).0

abbrev worker : Worker
worker = record {
  locked = λ (k : ℕ). false;
  describe = λ (s : Option ℕ). null;
  describe_managed = λ (s : Option ℕ). null;
}

abbrev config : DeliveryConfig
config = record {
  primary_webhook_url = some "https://one.example";
  primary_hmac_key = some "key";
  backup_webhook_url = none;
  backup_hmac_key = none;
}

abbrev refuse : String → String → DeliveryLease → Outcome
refuse url key l = record {
  http_status = some 503;
  response_digest = some 1;
  failure = some "webhook_http_503";
}

abbrev first_lease : DeliveryLease
unfolding lease_delivery raise_alert
first_lease = elim (lease_delivery worker raised 10).1 [
  | none ↦ record {
    id = 0;
    alert_id = 0;
    channel = primary;
    idempotency_key = 0;
    attempt_count = 0;
    payload = null;
  }
  | some l ↦ l
]

lease_delivery-first_example :
    (d : DeliveryRow) × (a : AlertRow) × Mem d raised.deliveries
    × (find (λ (x : AlertRow). x.id == d.alert_id) raised.alerts ≡ some a)
    × IsDue worker.locked 10 d
    × (first_lease.id ≡ d.id)
    × (first_lease.attempt_count ≡ suc d.attempt_count)
    × AreBehind raised.alerts worker.locked 10 a d raised.deliveries
unfolding lease_delivery raise_alert
lease_delivery-first_example = lease_delivery-first worker raised 10 first_lease refl

run_deliveries-InBounds_example :
    All
      (InBounds 1)
      (run_deliveries raised (
        begun worker 10
        ∷ whole worker refuse config 200 9
        ∷ whole worker refuse config 900 9
        ∷ [])).deliveries
unfolding raise_alert
run_deliveries-InBounds_example =
    run_deliveries-InBounds 0 raised
      (begun worker 10 ∷ whole worker refuse config 200 9 ∷ whole worker refuse config 900 9 ∷ [])
      ((omega arith, inr (omega arith)), ((omega arith, inr (omega arith)), tt))
