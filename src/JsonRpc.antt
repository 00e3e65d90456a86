-- ===== src/JsonRpc.antt =====
-- The answers of apps/server/src/http/json-rpc.ts. An error code is negative: `minus n` is -n.
pub mod Retry
mod Tests
use kajovo_cml.Prelude.{
  ℕ, Bool, true, false, ◌&&◌, ◌||◌, ◌==◌, nat_eq, string_eq, text_eq, Option, none, some, List, [],
  ◌∷◌, String, if◌then◌else◌,
}
use kajovo_cml.Security.Redact.{Json, null, bool, num, text, Fields, end, field, obj, object}
use kajovo_cml.Security.Text.{codes}

pub data Code : Type 0 where
  minus : ℕ → Code

pub data JsonRpcId : Type 0 where
  text_id : List ℕ → JsonRpcId
  number_id : ℕ → JsonRpcId
  null_id : JsonRpcId

-- `normalizedJsonRpcId`; an absent id is none.
unfoldable pub normalized_json_rpc_id : Option Json → JsonRpcId
normalized_json_rpc_id (some (text s)) = text_id s
normalized_json_rpc_id (some (num n)) = number_id n
normalized_json_rpc_id _ = null_id

unfoldable pub default_application_code : Code → String
default_application_code (minus n) =
    if n == 32700
    then "PARSE_ERROR"
    else if n == 32600
    then "INVALID_REQUEST"
    else if n == 32601
    then "METHOD_NOT_FOUND"
    else if n == 32602
    then "INVALID_PARAMS"
    else if n == 32001
    then "REQUEST_TOO_LARGE"
    else if n == 32002
    then "RATE_LIMITED"
    else if n == 32003
    then "HANDLER_UNAVAILABLE"
    else if n == 32004
    then "CONCURRENCY_LIMIT_EXCEEDED"
    else if n == 32005
    then "HANDLER_TIMEOUT"
    else if n == 32006
    then "RESPONSE_TOO_LARGE"
    else if n == 32007
    then "IDEMPOTENCY_CONFLICT"
    else if n == 32008
    then "REQUEST_CANCELLED"
    else "INTERNAL_ERROR"

unfoldable pub default_retryable : Code → Bool
default_retryable (minus n) = n == 32002 || n == 32004 || n == 32005

-- A field of an object literal: the last entry of a name counts.
unfoldable pub lookup : List ℕ → Fields → Option Json
lookup key end = none
lookup key (field name value rest) =
    let later = lookup key rest in
    elim later [ some v ↦ some v | none ↦ if name == key then some value else none ]

unfoldable pub join_fields : Fields → Fields → Fields
join_fields end extra = extra
join_fields (field name value rest) extra = field name value (join_fields rest extra)

pub record JsonRpcError : Type 0 where
  pub id : JsonRpcId
  pub code : Code
  pub message : String
  pub data_ : Fields

-- `typeof extra?.code === "string"`.
abbrev pub text_or : List ℕ → Option Json → List ℕ
text_or default (some (text s)) = s
text_or default _ = default

abbrev pub application_code : Code → Fields → List ℕ
unfolding default_application_code lookup
application_code code extra =
    text_or (codes (default_application_code code)) (lookup (codes "code") extra)

-- `typeof extra?.retryable === "boolean"`.
abbrev pub flag_or : Bool → Option Json → Bool
flag_or default (some (bool b)) = b
flag_or default _ = default

abbrev pub retryable : Code → Fields → Bool
unfolding default_retryable lookup
retryable code extra = flag_or (default_retryable code) (lookup (codes "retryable") extra)

-- The fields of `data` before those of `extra`; `correlation_id` is the text of the identifier.
unfoldable pub base_data : Code → List ℕ → Fields → Fields
unfolding application_code retryable
base_data code correlation_id extra = field (codes "code") (text (application_code code extra)) (
    field (codes "retryable") (bool (retryable code extra)) (
      field (codes "correlation_id") (text correlation_id)
        (field (codes "correlationId") (text correlation_id) end)))

-- `jsonRpcError`.
unfoldable pub json_rpc_error : Option Json → Code → String → List ℕ → Fields → JsonRpcError
unfolding base_data join_fields normalized_json_rpc_id
json_rpc_error id code message correlation_id extra = record {
  id = normalized_json_rpc_id id;
  code = code;
  message = message;
  data_ = join_fields (base_data code correlation_id extra) extra;
}

pub data JsonRpcResponse : Type 0 where
  error_response : JsonRpcError → JsonRpcResponse
  result_response : JsonRpcId → Fields → JsonRpcResponse

unfoldable pub json_rpc_result : Option Json → Fields → JsonRpcResponse
unfolding normalized_json_rpc_id
json_rpc_result id result = result_response (normalized_json_rpc_id id) result

-- What a reply sends: a notification, without an id, is only accepted.
pub data Reply : Type 0 where
  accepted_202 : Reply
  json_reply : JsonRpcResponse → Reply

unfoldable pub respond_to_json_rpc : Option Json → JsonRpcResponse → Reply
respond_to_json_rpc none payload = accepted_202
respond_to_json_rpc (some id) payload = json_reply payload

-- An error as the runtime throws it: its message, and its classification if it has one.
pub record RuntimeError : Type 0 where
  pub message : Option String
  pub classification : Option String

pub record MappedError : Type 0 where
  pub code : Code
  pub message : String
  pub classification : String
  pub event_type : String

abbrev pub classification_of : RuntimeError → String
classification_of e = elim e.classification [
  | some c ↦ c
  | none ↦ elim e.message [
    | none ↦ "handler"
    | some m ↦ if m == "output_schema_failed" then "schema" else "handler"
  ]
]

unfoldable pub map_classification : String → MappedError
map_classification c =
    let answer : ℕ → String → String → MappedError = λ n message event. record {
      code = minus n;
      message = message;
      classification = c;
      event_type = event;
    } in
    if c == "timeout"
    then answer 32005 "Handler timed out" "mcp.timeout"
    else if c == "cancelled"
    then answer 32008 "Request was cancelled" "mcp.cancelled"
    else if c == "size"
    then answer 32006 "Handler response exceeded the registered limit" "mcp.response_too_large"
    else if c == "schema"
    then answer 32603 "Output schema validation failed" "mcp.output_schema_failed"
    else if c == "saturation"
    then answer 32004 "Registered tool concurrency limit exceeded" "mcp.concurrency_rejected"
    else if c == "upstream"
    then answer 32603 "Handler failed" "mcp.upstream_failed"
    else answer 32603 "Handler failed" "mcp.invocation.failed"

-- `mapMcpRuntimeError`.
unfoldable pub map_mcp_runtime_error : RuntimeError → MappedError
unfolding map_classification
map_mcp_runtime_error e = map_classification (classification_of e)
