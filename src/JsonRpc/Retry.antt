-- ===== src/JsonRpc/Retry.antt =====
-- What a caller may try again (apps/server/src/http/json-rpc.ts).
use kajovo_cml.Prelude.{
  ℕ, Bool, true, ◌||◌, ◌==◌, string_eq, nat_eq, Option, none, some, List, String, ◌≡◌, refl, inl,
  inr, Bool-cases, Option-cases, ap, ◌∙◌,
}
use kajovo_cml.Security.Redact.{Json, bool, Fields, end, field}
use kajovo_cml.Security.Text.{codes}
use kajovo_cml.JsonRpc.{
  RuntimeError, classification_of, map_classification, map_mcp_runtime_error, default_retryable,
  json_rpc_error, lookup, join_fields, base_data,
}

named : (c d : String) → (c == d) ≡ true → c ≡ d
named c d e = (string_eq.beq_iff c d).0 e

retryable_classification :
    (c : String)
    → default_retryable (map_classification c).code ≡ (c == "timeout" || c == "saturation")
unfolding map_classification default_retryable
retryable_classification c = elim (Bool-cases (c == "timeout")) [
  | inl e ↦ rw (named c "timeout" e) refl
  | inr e₁ ↦ elim (Bool-cases (c == "cancelled")) [
    | inl e ↦ rw (named c "cancelled" e) refl
    | inr e₂ ↦ elim (Bool-cases (c == "size")) [
      | inl e ↦ rw (named c "size" e) refl
      | inr e₃ ↦ elim (Bool-cases (c == "schema")) [
        | inl e ↦ rw (named c "schema" e) refl
        | inr e₄ ↦ elim (Bool-cases (c == "saturation")) [
          | inl e ↦ rw (named c "saturation" e) refl
          | inr e₅ ↦ elim (Bool-cases (c == "upstream")) [
            | inl e ↦ rw (named c "upstream" e) refl
            | inr e₆ ↦ rw (map_classification, e₁, e₂, e₃, e₄, e₅, e₆) refl
          ]
        ]
      ]
    ]
  ]
]

module _ (key : List ℕ) where
  abbrev picked : Option Json → Option Json → Option Json
  picked none d = d
  picked (some v) d = some v

  lookup-join_fields :
      (base extra : Fields)
      → lookup key (join_fields base extra) ≡ picked (lookup key extra) (lookup key base)
  unfolding lookup join_fields
  lookup-join_fields end extra = elim (Option-cases (lookup key extra)) [
    | inl e ↦ rw e refl
    | inr (v, e) ↦ rw e refl
  ]
  lookup-join_fields (field name value base) extra =
      let rest = lookup-join_fields base extra in
      elim (Option-cases (lookup key extra)) [
        | inl e ↦ rw (rest, e) refl
        | inr (v, e) ↦ rw (rest, e) refl
      ]

-- The answer to a failed call says that it may be tried again exactly if the call timed out or the
-- server was saturated, whatever else is reported with it, unless that names `retryable` itself.
pub runtime_error_retryable :
    (e : RuntimeError) (id : Option Json) (correlation_id : List ℕ) (extra : Fields)
    → lookup (codes "retryable") extra ≡ none
    → let mapped = map_mcp_runtime_error e in
      let c = classification_of e in
      lookup
        (codes "retryable")
        (json_rpc_error id mapped.code mapped.message correlation_id extra).data_
      ≡ some (bool (c == "timeout" || c == "saturation"))
unfolding json_rpc_error map_mcp_runtime_error base_data lookup
runtime_error_retryable e id correlation_id extra missing =
    let c = classification_of e in
    let code = (map_mcp_runtime_error e).code in
    lookup-join_fields (codes "retryable") (base_data code correlation_id extra) extra
    ∙ rw missing (ap (λ (b : Bool). some (bool b)) (retryable_classification c))
