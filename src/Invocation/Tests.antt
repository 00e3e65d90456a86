-- ===== src/Invocation/Tests.antt =====
-- One call from its beginning on (apps/server/src/domain/invocation.ts).
use kajovo_cml.Prelude.{ℕ, true, none, [], ◌∷◌, ◌≡◌, refl, err}
use kajovo_cml.Security.Redact.{Json, null}
use kajovo_cml.Security.Text.{codes}
use kajovo_cml.Alerts.Raise.{FreshIds}
use kajovo_cml.Invocation.{
  InvocationStore, BeginInput, FinalizeInput, FailureInput, begin_invocation, write_finalization,
  finalize_invocation, record_finalization_failure, invocation_not_finalizable,
}
use kajovo_cml.Invocation.Once.{finalize_once}
use kajovo_cml.Invocation.Accounts.{
  IsBalanced, begin, finalize, fail, run_steps, run_steps-IsBalanced,
}

abbrev empty : InvocationStore
empty = record {
  invocations = [];
  statistics = [];
  metrics = [];
  idempotency = [];
  alerting = record { alerts = []; deliveries = []; audit = [] };
}

abbrev call : BeginInput
call = record {
  server_id = 4;
  credential_id = 5;
  correlation_id = 6;
  request_digest = "d";
  idempotency_key = none;
}

abbrev done : FinalizeInput
done = record {
  invocation_id = 1;
  server_id = 4;
  credential_id = 5;
  correlation_id = 6;
  outcome = record {
    success = true;
    latency_ms = 12;
    error_class = none;
    event_type = "mcp.invocation.succeeded";
    response = null;
    idempotency = none;
  };
}

abbrev lost : FailureInput
lost = record { invocation_id = 1; server_id = 4; correlation_id = 6; error = codes "timeout" }

abbrev fresh : FreshIds
fresh = record {
  alert = 1;
  primary_delivery = 2;
  primary_key = 3;
  backup_delivery = 4;
  backup_key = 5;
}

abbrev no_digest : Json → ℕ
no_digest response = 0

finalize_once_example :
    (finalize_invocation no_digest
        (write_finalization no_digest (begin_invocation empty 1 call) 10 done)
        11
        done
      ≡ err invocation_not_finalizable)
    × ((record_finalization_failure
          (write_finalization no_digest (begin_invocation empty 1 call) 10 done)
          11
          fresh
          lost).invocations
        ≡ (write_finalization no_digest (begin_invocation empty 1 call) 10 done).invocations)
unfolding finalize_invocation begin_invocation
finalize_once_example =
    finalize_once no_digest (begin_invocation empty 1 call)
      (write_finalization no_digest (begin_invocation empty 1 call) 10 done) 10 11 done done fresh
      lost refl refl refl

run_steps-IsBalanced_example : IsBalanced (
    run_steps no_digest empty
      ((9, begin 1 call) ∷ (10, finalize done) ∷ (11, fail fresh lost) ∷ []))
run_steps-IsBalanced_example =
    run_steps-IsBalanced no_digest empty
      ((9, begin 1 call) ∷ (10, finalize done) ∷ (11, fail fresh lost) ∷ []) (λ success k. refl)
