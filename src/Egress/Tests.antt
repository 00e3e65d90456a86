-- ===== src/Egress/Tests.antt =====
-- Addresses, and capabilities of two jobs (egress.ts, egress-proxy.ts).
use kajovo_cml.Prelude.{
  ◌+◌, ◌*◌, true, false, ◌||◌, none, some, [], ◌∷◌, leb, ◌≡◌, ◌≢◌, refl, arith,
}
use kajovo_cml.Security.Text.{codes}
use kajovo_cml.Egress.{Url, is_allowed_destination, forbidden_ipv4}
use kajovo_cml.Egress.Capability.{
  CapabilityRow, EgressStore, used, revoke_egress_capabilities, validate_egress_capability,
}
use kajovo_cml.Egress.Revocation.{create, run_egresses, revoked_for_good}
use kajovo_cml.Egress.Blocks.{block, forbidden_ipv4-blocks}

abbrev url : Url
url = record {
  protocol = "https:";
  username = "";
  password = "";
  hostname = codes "API.example.";
  port = [];
}

allows_listed : is_allowed_destination url (codes "api.example" ∷ []) ≡ true
unfolding is_allowed_destination
allows_listed = refl

refuses_other_port : is_allowed_destination url (codes "api.example:8443" ∷ []) ≡ false
unfolding is_allowed_destination
refuses_other_port = refl

forbidden_ipv4-blocks_example :
    let address = ((172 * 256 + 20) * 256 + 1) * 256 + 9 in
    forbidden_ipv4 (some 172 ∷ some 20 ∷ some 1 ∷ some 9 ∷ []) ≡ (
      block 16777216 0 address
      || block 16777216 10 address
      || block 16777216 127 address
      || leb 3758096384 address
      || block 4194304 401 address
      || block 65536 43518 address
      || block 1048576 2753 address
      || block 65536 49152 address
      || block 65536 49320 address
      || block 131072 25353 address)
forbidden_ipv4-blocks_example =
    forbidden_ipv4-blocks 172 20 1 9 (omega arith) (omega arith) (omega arith) (omega arith)

abbrev granted : CapabilityRow
granted = record {
  lookup_digest = 5;
  job_id = 1;
  server_id = none;
  allowlist = codes "api.example" ∷ [];
  expires_at = 900;
  revoked_at = none;
  last_used_at = none;
}

abbrev db : EgressStore
db = record {
  capabilities = granted ∷ [];
  jobs = record { id = 1; state = "ACTIVE" } ∷ record { id = 2; state = "ACTIVE" } ∷ [];
}

abbrev other : CapabilityRow
other = record granted { lookup_digest = 7; job_id = 2; expires_at = 11 + 30 * 86400 }

abbrev result : EgressStore × CapabilityRow
result = (
  record db {
    capabilities =
        used 12 (record other { allowlist = codes "c.example" ∷ [] })
        ∷ record granted { revoked_at = some 10 }
        ∷ [];
  },
  record other { allowlist = codes "c.example" ∷ [] },
)

revoked_for_good_example : result.1.job_id ≢ 1
unfolding run_egresses revoke_egress_capabilities validate_egress_capability
revoked_for_good_example =
    revoked_for_good db 10 12 7 1 ((11, create 7 2 (codes "c.example" ∷ [])) ∷ []) result refl refl
