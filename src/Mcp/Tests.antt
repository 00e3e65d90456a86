-- ===== src/Mcp/Tests.antt =====
-- Leases of one server, and a small cache (mcp-policy.ts).
use kajovo_cml.Prelude.{ℕ, List, [], ◌∷◌, arith}
use kajovo_cml.Security.Text.{codes}
use kajovo_cml.Mcp.Leases.{LeaseStore}
use kajovo_cml.Mcp.Bounds.{
  IsLimited, LeaseOperation, acquire, release, run_leases, run_leases-IsLimited,
}
use kajovo_cml.Mcp.Cache.{ValidatorCache}

abbrev db : LeaseStore
db = record {
  servers = record { id = 1; max_concurrency = 1; timeout_ms = 1000 } ∷ [];
  leases = [];
}

abbrev calls : List (ℕ × LeaseOperation)
calls = (0, acquire 7 1) ∷ (10, acquire 8 1) ∷ (5, release 7) ∷ (1, acquire 9 1) ∷ []

run_leases-IsLimited_example : IsLimited (run_leases db 100 calls).0 (run_leases db 100 calls).1
run_leases-IsLimited_example = run_leases-IsLimited db 100 calls (λ k s found. omega arith)

abbrev cache : ValidatorCache ℕ
cache = record { maximum_size = 1; entries = (codes "old", 3) ∷ [] }
