-- ===== src/Egress/Ephemeral/Tokens/Tests.antt =====
-- A signed capability (apps/server/src/domain/egress.ts).
use kajovo_cml.Prelude.{ℕ, ◌≡◌, refl, arith, Option, none, some, List, [], ◌∷◌, ◌++◌, ok}
use kajovo_cml.Security.Redact.{Fields}
use kajovo_cml.Security.Text.{codes}
use kajovo_cml.Egress.Ephemeral.{
  ValidatedCapability, payload_fields, split_last_dot, drop, validated_payload,
  create_ephemeral_egress_capability, validate_ephemeral_egress_capability,
}
use kajovo_cml.Egress.Ephemeral.Tokens.{validate-signed, validate-create}

abbrev capability : ValidatedCapability
capability = record {
  managed_service_id = none;
  allowlist = codes "api.example" ∷ [];
  tcp_tls_allowlist =
      record { target_host = codes "db.example"; port = 5432; servername = codes "db.example" }
      ∷ [];
  purpose = codes "probe";
  correlation_id = some (codes "c-1");
}

abbrev encode : Fields → List ℕ
encode f = codes "payload"

abbrev decode : List ℕ → Option Fields
decode s = some (payload_fields capability 1000 60)

abbrev sign : List ℕ → List ℕ
sign s = s ++ codes "-signed"

validate-create_example :
    validate_ephemeral_egress_capability encode decode sign 2000
      (create_ephemeral_egress_capability encode decode sign capability 1000 60)
    ≡ ok capability
validate-create_example =
    validate-create encode decode sign capability 1000 2000 60 refl refl refl ((refl, refl), tt)
      (omega arith)

validate-signed_example :
    (payload : List ℕ) × (f : Fields) × (split_last_dot
        (drop 5 (create_ephemeral_egress_capability encode decode sign capability 1000 60))
      ≡ some (payload, sign payload))
    × (decode payload ≡ some f)
    × (validated_payload 2000 f ≡ ok capability)
validate-signed_example =
    validate-signed encode decode sign 2000
      (create_ephemeral_egress_capability encode decode sign capability 1000 60) capability
      (validate-create encode decode sign capability 1000 2000 60 refl refl refl ((refl, refl), tt)
        (omega arith))
