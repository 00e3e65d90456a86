-- ===== src/Egress/Capability.antt =====
-- The capabilities of a job's container (apps/server/src/domain/egress.ts). Moments are seconds.
use kajovo_cml.Prelude.{
  ℕ, ◌+◌, ◌*◌, max, Bool, not, ◌&&◌, ◌==◌, nat_eq, string_eq, Option, none, some, List, [], ◌∷◌,
  String, find, any, update_where, ltb, is_some, ◌||◌, Result, ok, err,
}

-- `egress_capability`.
pub record CapabilityRow : Type 0 where
  pub lookup_digest : ℕ
  pub job_id : ℕ
  pub server_id : Option ℕ
  pub allowlist : List (List ℕ)
  pub expires_at : ℕ
  pub revoked_at : Option ℕ
  pub last_used_at : Option ℕ

-- `onboarding_job`.
pub record JobRow : Type 0 where
  pub id : ℕ
  pub state : String

pub record EgressStore : Type 0 where
  pub capabilities : List CapabilityRow
  pub jobs : List JobRow

abbrev pub day_seconds : ℕ
day_seconds = 86400

abbrev pub revoked : ℕ → CapabilityRow → CapabilityRow
revoked now c = record c { revoked_at = elim c.revoked_at [ none ↦ some now | some t ↦ some t ] }

-- A capability of a job that is not revoked.
abbrev pub is_live_of : ℕ → CapabilityRow → Bool
is_live_of job_id c = (c.job_id == job_id) && not (is_some c.revoked_at)

abbrev pub attached : ℕ → ℕ → CapabilityRow → CapabilityRow
attached now server_id c = record c {
  server_id = some server_id;
  expires_at = max c.expires_at (now + 3650 * day_seconds);
}

abbrev pub used : ℕ → CapabilityRow → CapabilityRow
used now c = record c { last_used_at = some now }

-- `revokeEgressCapabilities`.
unfoldable pub revoke_egress_capabilities : EgressStore → ℕ → ℕ → EgressStore
revoke_egress_capabilities db now job_id = record db {
  capabilities =
      update_where (λ (c : CapabilityRow). c.job_id == job_id) (revoked now) db.capabilities;
}

-- `createEgressCapability`: an empty allowlist gets no token, but takes the old one away.
unfoldable pub create_egress_capability :
    EgressStore → ℕ → ℕ → ℕ → List (List ℕ) → EgressStore × Option ℕ
create_egress_capability db now digest job_id allowlist =
    let old = update_where (is_live_of job_id) (revoked now) db.capabilities in
    elim allowlist [
      | [] ↦ (record db { capabilities = old }, none)
      | host ∷ hosts ↦ (
        record db {
          capabilities =
              record {
                lookup_digest = digest;
                job_id = job_id;
                server_id = none;
                allowlist = host ∷ hosts;
                expires_at = now + 30 * day_seconds;
                revoked_at = none;
                last_used_at = none;
              }
              ∷ old;
        },
        some digest,
      )
    ]

-- `attachEgressCapabilityToServer`.
unfoldable pub attach_egress_capability_to_server : EgressStore → ℕ → ℕ → ℕ → EgressStore
attach_egress_capability_to_server db now job_id server_id = record db {
  capabilities = update_where (is_live_of job_id) (attached now server_id) db.capabilities;
}

abbrev pub is_ended : String → Bool
is_ended state = state == "FAILED" || state == "QUARANTINED" || state == "CANCELLED"

abbrev pub is_usable : EgressStore → ℕ → ℕ → CapabilityRow → Bool
is_usable db now digest c =
    (c.lookup_digest == digest)
    && not (is_some c.revoked_at)
    && ltb now c.expires_at
    && any (λ (job : JobRow). (job.id == c.job_id) && not (is_ended job.state)) db.jobs

pub data EgressError : Type 0 where
  invalid_egress_capability : EgressError

-- `validateEgressCapability` of a token that is kept in the table: the digest is unique there.
unfoldable pub validate_egress_capability :
    EgressStore → ℕ → ℕ → Result EgressError (EgressStore × CapabilityRow)
validate_egress_capability db now digest = elim (find (is_usable db now digest) db.capabilities) [
  | none ↦ err invalid_egress_capability
  | some c ↦ ok (
    record db { capabilities = update_where (is_usable db now digest) (used now) db.capabilities },
    c,
  )
]
