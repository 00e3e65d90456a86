-- ===== src/Egress/Revocation.antt =====
-- Capabilities that have been taken away (apps/server/src/domain/egress.ts).
use kajovo_cml.Prelude.{
  ℕ, Bool, true, false, not, ◌&&◌, ◌==◌, nat_eq, nat_beq_iff, some, List, [], ◌∷◌, find,
  find-passes, all, All, All-update_where, count_where, update_where, is_some, ◌≡◌, ◌≢◌, refl,
  subst, inl, inr, arith, Bool-cases, Option-cases, if◌then◌else◌, Result, ok, err,
}
use kajovo_cml.Egress.Capability.{
  CapabilityRow, EgressStore, is_live_of, attached, used, revoked, revoke_egress_capabilities,
  create_egress_capability, attach_egress_capability_to_server, is_usable,
  validate_egress_capability, EgressError, invalid_egress_capability,
}

revoked_count :
    (now job_id : ℕ) (cs : List CapabilityRow)
    → count_where (is_live_of job_id) (update_where (is_live_of job_id) (revoked now) cs) ≡ 0
revoked_count now job_id [] = refl
revoked_count now job_id (c ∷ cs) =
    let rest = revoked_count now job_id cs in
    elim (Bool-cases (is_live_of job_id c)) [
      | inl e ↦ rw e (ground (arith, rest))
      | inr e ↦ rw e (rw e rest)
    ]

-- After a capability has been created for a job, whatever the job had before, one of its capabilities
-- is live, or none where the allowlist is empty.
pub create-single :
    (db : EgressStore) (now digest job_id : ℕ) (allowlist : List (List ℕ))
    → let (after, token) = create_egress_capability db now digest job_id allowlist in
      count_where (is_live_of job_id) after.capabilities ≡ (if is_some token then 1 else 0)
unfolding create_egress_capability
create-single db now digest job_id [] = revoked_count now job_id db.capabilities
create-single db now digest job_id (host ∷ hosts) =
    let rest = revoked_count now job_id db.capabilities in
    rw ((nat_beq_iff job_id job_id).1 refl) (rw rest refl)

-- No capability of the job is live.
abbrev pub IsCut : ℕ → EgressStore → Type 0
IsCut job_id db = All (λ (c : CapabilityRow). is_live_of job_id c ≡ false) db.capabilities

pub data EgressOperation : Type 0 where
  revoke : ℕ → EgressOperation
  create : ℕ → ℕ → List (List ℕ) → EgressOperation
  attach : ℕ → ℕ → EgressOperation
  validate : ℕ → EgressOperation

abbrev validated : EgressStore → Result EgressError (EgressStore × CapabilityRow) → EgressStore
validated db (ok r) = r.0
validated db (err e) = db

abbrev pub run_egress : EgressStore → ℕ × EgressOperation → EgressStore
run_egress db (now, revoke job_id) = revoke_egress_capabilities db now job_id
run_egress db (now, create digest job_id allowlist) =
    (create_egress_capability db now digest job_id allowlist).0
run_egress db (now, attach job_id server_id) =
    attach_egress_capability_to_server db now job_id server_id
run_egress db (now, validate digest) = validated db (validate_egress_capability db now digest)

unfoldable pub run_egresses : EgressStore → List (ℕ × EgressOperation) → EgressStore
unfolding revoke_egress_capabilities create_egress_capability attach_egress_capability_to_server
    validate_egress_capability
run_egresses db [] = db
run_egresses db (o ∷ os) = run_egresses (run_egress db o) os

-- Not the creation of another capability for the job.
abbrev pub leaves_cut : ℕ → ℕ × EgressOperation → Bool
leaves_cut job_id (now, create digest other allowlist) = not (other == job_id)
leaves_cut job_id (now, _) = true

kept_cut :
    (job_id : ℕ) (q : CapabilityRow → Bool) (f : CapabilityRow → CapabilityRow)
    → ((c : CapabilityRow) → is_live_of job_id c ≡ false → is_live_of job_id (f c) ≡ false)
    → (cs : List CapabilityRow) → All (λ (c : CapabilityRow). is_live_of job_id c ≡ false) cs
    → All (λ (c : CapabilityRow). is_live_of job_id c ≡ false) (update_where q f cs)
kept_cut job_id q f h cs v =
    All-update_where (λ (c : CapabilityRow). is_live_of job_id c ≡ false)
      (λ (c : CapabilityRow). is_live_of job_id c ≡ false) q f (λ c e b. h c b) (λ c e b. b) cs v

revoked_off : (job_id now : ℕ) (c : CapabilityRow) → is_live_of job_id (revoked now c) ≡ false
revoked_off job_id now c = ground arith

run_egress-IsCut :
    (job_id : ℕ) (db : EgressStore) (o : ℕ × EgressOperation)
    → leaves_cut job_id o ≡ true
    → IsCut job_id db
    → IsCut job_id (run_egress db o)
unfolding revoke_egress_capabilities create_egress_capability attach_egress_capability_to_server
    validate_egress_capability
run_egress-IsCut job_id db (now, revoke other) h v =
    kept_cut job_id _ (revoked now) (λ c b. revoked_off job_id now c) db.capabilities v
run_egress-IsCut job_id db (now, create digest other []) h v =
    kept_cut job_id _ (revoked now) (λ c b. revoked_off job_id now c) db.capabilities v
run_egress-IsCut job_id db (now, create digest other (host ∷ hosts)) h v = (
  ground arith,
  kept_cut job_id _ (revoked now) (λ c b. revoked_off job_id now c) db.capabilities v,
)
run_egress-IsCut job_id db (now, attach other server_id) h v =
    kept_cut job_id (is_live_of other) (attached now server_id) (λ c b. b) db.capabilities v
run_egress-IsCut job_id db (now, validate digest) h v =
    elim (Option-cases (find (is_usable db now digest) db.capabilities)) [
      | inl missing ↦ rw (validate_egress_capability, missing) v
      | inr (c, found) ↦
          rw (validate_egress_capability, found)
            (kept_cut job_id (is_usable db now digest) (used now) (λ c b. b) db.capabilities v)
    ]

and_left : (a b : Bool) → (a && b) ≡ true → a ≡ true
and_left a b h = ground arith

and_right : (a b : Bool) → (a && b) ≡ true → b ≡ true
and_right a b h = ground arith

all_unit : (cs : List CapabilityRow) → All (λ (c : CapabilityRow). Unit {0}) cs
all_unit [] = tt
all_unit (c ∷ cs) = (tt, all_unit cs)

All-find {κ} :
    (P : CapabilityRow → Type κ) (p : CapabilityRow → Bool) (cs : List CapabilityRow)
    {c : CapabilityRow}
    → All P cs
    → find p cs ≡ some c
    → P c
All-find P p [] h e = cc
All-find P p (d ∷ cs) {c} h e = elim (Bool-cases (p d)) [
  | inl at ↦ let same : d ≡ c = ground arith in subst P same (h.0)
  | inr off ↦ All-find P p cs (h.1) (ground arith)
]

live_usable :
    (db : EgressStore) (now digest job_id : ℕ) (c : CapabilityRow)
    → is_usable db now digest c ≡ true
    → is_live_of job_id c ≡ false
    → (c.job_id == job_id) ≡ false
live_usable db now digest job_id c usable off = ground arith

run_egresses-IsCut :
    (job_id : ℕ) (db : EgressStore) (os : List (ℕ × EgressOperation))
    → all (leaves_cut job_id) os ≡ true
    → IsCut job_id db
    → IsCut job_id (run_egresses db os)
unfolding run_egresses
run_egresses-IsCut job_id db [] h v = v
run_egresses-IsCut job_id db (o ∷ os) h v =
    run_egresses-IsCut job_id (run_egress db o) os (and_right (leaves_cut job_id o) _ h)
      (run_egress-IsCut job_id db o (and_left (leaves_cut job_id o) _ h) v)

revoke-IsCut :
    (job_id now : ℕ) (db : EgressStore) → IsCut job_id (revoke_egress_capabilities db now job_id)
unfolding revoke_egress_capabilities
revoke-IsCut job_id now db =
    All-update_where (λ (c : CapabilityRow). Unit {0})
      (λ (c : CapabilityRow). is_live_of job_id c ≡ false)
      (λ (c : CapabilityRow). c.job_id == job_id) (revoked now) (λ c e b. revoked_off job_id now c)
      (λ c e b. rw e refl) db.capabilities (all_unit db.capabilities)

validated_row :
    (db : EgressStore) (now digest : ℕ) (r : EgressStore × CapabilityRow)
    → validate_egress_capability db now digest ≡ ok r
    → find (is_usable db now digest) db.capabilities ≡ some (r.1)
unfolding validate_egress_capability
validated_row db now digest r h =
    elim (Option-cases (find (is_usable db now digest) db.capabilities)) [
      | inl missing ↦
          let fails : validate_egress_capability db now digest ≡ err invalid_egress_capability =
            rw (validate_egress_capability, missing) refl in
          cc
      | inr (c, found) ↦
          let passes : validate_egress_capability db now digest
              ≡ ok (
                record db {
                  capabilities = update_where (is_usable db now digest) (used now) db.capabilities;
                },
                c,
              ) =
            rw (validate_egress_capability, found) refl in
          cc
    ]

-- Once the capabilities of a job have been revoked, none of them is accepted again, whatever is
-- revoked, created for other jobs, attached and validated before it is tried.
pub revoked_for_good :
    (db : EgressStore) (now later digest job_id : ℕ) (os : List (ℕ × EgressOperation))
    (r : EgressStore × CapabilityRow)
    → all (leaves_cut job_id) os ≡ true
    → validate_egress_capability
        (run_egresses (revoke_egress_capabilities db now job_id) os)
        later
        digest
      ≡ ok r
    → r.1.job_id ≢ job_id
revoked_for_good db now later digest job_id os r h accepted own =
    let after = run_egresses (revoke_egress_capabilities db now job_id) os in
    let cut =
      run_egresses-IsCut job_id (revoke_egress_capabilities db now job_id) os h
        (revoke-IsCut job_id now db) in
    let found = validated_row after later digest r accepted in
    let usable = find-passes (is_usable after later digest) after.capabilities found in
    let off =
      All-find (λ (c : CapabilityRow). is_live_of job_id c ≡ false) (is_usable after later digest)
        after.capabilities cut found in
    let other = live_usable after later digest job_id (r.1) usable off in
    let same = (nat_beq_iff r.1.job_id job_id).1 own in cc
