-- ===== src/JsonRpc/Tests.antt =====
-- A call that timed out (apps/server/src/http/json-rpc.ts).
use kajovo_cml.Prelude.{◌||◌, ◌==◌, string_eq, some, ◌≡◌, refl}
use kajovo_cml.Security.Redact.{bool, num, end, field}
use kajovo_cml.Security.Text.{codes}
use kajovo_cml.JsonRpc.{
  RuntimeError, classification_of, map_mcp_runtime_error, json_rpc_error, lookup,
}
use kajovo_cml.JsonRpc.Retry.{runtime_error_retryable}

abbrev timed_out : RuntimeError
timed_out = record { message = some "handler_timeout"; classification = some "timeout" }

timeout_is_retryable :
    let mapped = map_mcp_runtime_error timed_out in
    let c = classification_of timed_out in
    lookup
      (codes "retryable")
      (json_rpc_error
        (some (num 3))
        mapped.code
        mapped.message
        (codes "c-1")
        (field (codes "tool") (num 1) end)).data_
    ≡ some (bool (c == "timeout" || c == "saturation"))
unfolding lookup
timeout_is_retryable =
    runtime_error_retryable timed_out (some (num 3)) (codes "c-1")
      (field (codes "tool") (num 1) end) refl
