-- ===== src/Mcp/Leases.antt =====
-- `acquireServerExecutionLease` and `releaseServerExecutionLease` of
-- apps/server/src/domain/mcp-policy.ts, and its rules for a class of effects.
use kajovo_cml.Prelude.{
  ℕ, ◌+◌, Bool, true, false, not, ◌&&◌, ◌==◌, nat_eq, List, ◌∷◌, find, filter, count_where, ltb,
  leb, Result, ok, ◌>>=◌, ◌>>◌, guard, or_fail,
}

pub data EffectClass : Type 0 where
  read_only idempotent_write non_idempotent_write : EffectClass

pub data McpIdempotencyMode : Type 0 where
  not_required replay_completed reject_replay : McpIdempotencyMode

pub requires_idempotency_key : EffectClass → Bool
requires_idempotency_key read_only = false
requires_idempotency_key _ = true

pub idempotency_mode : EffectClass → McpIdempotencyMode
idempotency_mode read_only = not_required
idempotency_mode idempotent_write = replay_completed
idempotency_mode non_idempotent_write = reject_replay

pub record LeaseRow : Type 0 where
  pub lease_id : ℕ
  pub server_id : ℕ
  pub expires_at : ℕ

-- `mcp_server`.
pub record ServerLimits : Type 0 where
  pub id : ℕ
  pub max_concurrency : ℕ
  pub timeout_ms : ℕ

pub record LeaseStore : Type 0 where
  pub servers : List ServerLimits
  pub leases : List LeaseRow

pub data LeaseError : Type 0 where
  server_missing concurrency_limit_exceeded : LeaseError

abbrev pub is_running : ℕ → ℕ → LeaseRow → Bool
is_running now server_id l = (l.server_id == server_id) && ltb now l.expires_at

-- `delete from function_concurrency_lease where expires_at <= now()`.
abbrev pub unexpired : ℕ → List LeaseRow → List LeaseRow
unexpired now leases = filter (λ (l : LeaseRow). not (leb l.expires_at now)) leases

abbrev pub with_lease : LeaseStore → ℕ → ℕ → ServerLimits → LeaseStore
with_lease db now lease_id locked = record db {
  leases =
      record {
        lease_id = lease_id;
        server_id = locked.id;
        expires_at = now + (locked.timeout_ms + 5000);
      }
      ∷ unexpired now db.leases;
}

abbrev pub has_room : LeaseStore → ℕ → ServerLimits → Bool
has_room db now locked =
    not (
      leb locked.max_concurrency (count_where (is_running now locked.id) (unexpired now db.leases)))

-- The new store and the lease; an error rolls the transaction back, the deletion included.
unfoldable pub acquire_server_execution_lease :
    LeaseStore → ℕ → ℕ → ℕ → Result LeaseError (LeaseStore × ℕ)
acquire_server_execution_lease db now lease_id server_id = do
  locked ← or_fail (find (λ (s : ServerLimits). s.id == server_id) db.servers) server_missing
  guard (has_room db now locked) concurrency_limit_exceeded
  ok (with_lease db now lease_id locked, lease_id)

unfoldable pub release_server_execution_lease : LeaseStore → ℕ → LeaseStore
release_server_execution_lease db lease_id = record db {
  leases = filter (λ (l : LeaseRow). not (l.lease_id == lease_id)) db.leases;
}
