-- ===== src/Mcp/Bounds.antt =====
-- No server runs more calls than it may, and no cache keeps more than it may (mcp-policy.ts).
use kajovo_cml.Prelude.{
  ℕ, suc, ◌+◌, ◌≤◌, Bool, true, not, ◌==◌, nat_eq, nat_beq_iff, none, some, List, [], ◌∷◌, find,
  count_where, count_where_le, count_where-filter_le, leb, ◌≡◌, refl, inl, inr, arith, Bool-cases,
  Option-cases, Result, ok, err, after, ◌>>=◌, guard-then_iff, guard, find-passes, ◌>>◌,
  if◌then◌else◌, sym, subst, ◌∙◌,
}
use kajovo_cml.Mcp.Leases.{
  LeaseRow, ServerLimits, LeaseStore, LeaseError, server_missing, concurrency_limit_exceeded,
  has_room, with_lease, is_running, unexpired, acquire_server_execution_lease,
  release_server_execution_lease,
}

-- No server has more running leases than its limit.
abbrev pub IsLimited : LeaseStore → ℕ → Type 0
IsLimited db now =
    (k : ℕ) (s : ServerLimits)
    → find (λ (x : ServerLimits). x.id == k) db.servers ≡ some s
    → count_where (is_running now k) db.leases ≤ s.max_concurrency

later-IsLimited :
    (db : LeaseStore) (now later : ℕ) → now ≤ later → IsLimited db now → IsLimited db later
later-IsLimited db now later passes v k s found =
    let fewer =
      count_where_le (is_running later k) (is_running now k) (λ (l : LeaseRow). ground arith)
        db.leases in
    omega (arith, fewer, v k s found)

release-IsLimited :
    (db : LeaseStore) (now lease_id : ℕ)
    → IsLimited db now
    → IsLimited (release_server_execution_lease db lease_id) now
unfolding release_server_execution_lease
release-IsLimited db now lease_id v k s found =
    let fewer =
      count_where-filter_le (is_running now k) (λ (l : LeaseRow). not (l.lease_id == lease_id))
        db.leases in
    omega (arith, fewer, v k s found)

found_acquisition :
    (db : LeaseStore) (now lease_id server_id : ℕ) (s : ServerLimits)
    → find (λ (x : ServerLimits). x.id == server_id) db.servers ≡ some s
    → acquire_server_execution_lease db now lease_id server_id ≡ (
        guard (has_room db now s) concurrency_limit_exceeded
        >> ok (with_lease db now lease_id s, lease_id))
unfolding acquire_server_execution_lease
found_acquisition db now lease_id server_id s found =
    rw (found, acquire_server_execution_lease) refl

missing_acquisition :
    (db : LeaseStore) (now lease_id server_id : ℕ)
    → find (λ (x : ServerLimits). x.id == server_id) db.servers ≡ none
    → acquire_server_execution_lease db now lease_id server_id ≡ err server_missing
unfolding acquire_server_execution_lease
missing_acquisition db now lease_id server_id missing =
    rw (missing, acquire_server_execution_lease) refl

-- What an acquisition that succeeds has found.
acquired :
    (db : LeaseStore) (now lease_id server_id : ℕ) (r : LeaseStore × ℕ)
    → acquire_server_execution_lease db now lease_id server_id ≡ ok r
    → (s : ServerLimits) × (find (λ (x : ServerLimits). x.id == server_id) db.servers ≡ some s)
      × (has_room db now s ≡ true)
      × ((with_lease db now lease_id s, lease_id) ≡ r)
acquired db now lease_id server_id r h =
    elim (Option-cases (find (λ (x : ServerLimits). x.id == server_id) db.servers)) [
      | inl missing ↦ cc (missing_acquisition db now lease_id server_id missing, h)
      | inr (s, found) ↦
          let (room, same) =
            (guard-then_iff _ _ _ _).0
              (sym (found_acquisition db now lease_id server_id s found) ∙ h) in
          (s, found, room, cc same)
    ]

room_le : (limit count : ℕ) → not (leb limit count) ≡ true → suc count ≤ limit
room_le limit count h = ground arith

one_more :
    (b : Bool) (count limit : ℕ) → suc count ≤ limit → (if b then suc count else count) ≤ limit
one_more b count limit h = ground arith

with_lease-IsLimited :
    (db : LeaseStore) (now lease_id server_id : ℕ) (s : ServerLimits)
    → find (λ (x : ServerLimits). x.id == server_id) db.servers ≡ some s
    → has_room db now s ≡ true
    → IsLimited db now
    → IsLimited (with_lease db now lease_id s) now
with_lease-IsLimited db now lease_id server_id s found room v k t at_k =
    let fewer =
      count_where-filter_le (is_running now k) (λ (l : LeaseRow). not (leb l.expires_at now))
        db.leases in
    let named = find-passes (λ (x : ServerLimits). x.id == k) db.servers at_k in
    let before = v k t at_k in
    elim (Bool-cases (s.id == k)) [
      | inr other ↦ rw other (omega (arith, fewer, before))
      | inl same ↦
          let id : s.id ≡ k = (nat_beq_iff s.id k).0 same in
          let own : s.id ≡ server_id =
            (nat_beq_iff s.id server_id).0
              (find-passes (λ (x : ServerLimits). x.id == server_id) db.servers found) in
          let found_k : find (λ (x : ServerLimits). x.id == k) db.servers ≡ some s =
            subst (λ (n : ℕ). find (λ (x : ServerLimits). x.id == n) db.servers ≡ some s)
              (sym own ∙ id) found in
          let t_is : s ≡ t = cc (found_k, at_k) in
          let few : suc (count_where (is_running now s.id) (unexpired now db.leases))
              ≤ s.max_concurrency =
            room_le _ _ room in
          let few_k : suc (count_where (is_running now k) (unexpired now db.leases))
              ≤ t.max_concurrency =
            subst
              (λ (x : ServerLimits).
                suc (count_where (is_running now k) (unexpired now db.leases)) ≤ x.max_concurrency)
              t_is
              (subst
                (λ (n : ℕ).
                  suc (count_where (is_running now n) (unexpired now db.leases))
                  ≤ s.max_concurrency)
                id few) in
          one_more _ _ _ few_k
    ]

pub data LeaseOperation : Type 0 where
  acquire : ℕ → ℕ → LeaseOperation
  release : ℕ → LeaseOperation

-- One call, accepted or refused.
abbrev pub run_lease : LeaseStore → ℕ → LeaseOperation → LeaseStore
run_lease db now (acquire lease_id server_id) =
    after db (
      acquire_server_execution_lease db now lease_id server_id >>= λ (r : LeaseStore × ℕ). ok (r.0))
run_lease db now (release lease_id) = release_server_execution_lease db lease_id

-- Calls with the time that passes before each, and the moment of the last.
pub run_leases : LeaseStore → ℕ → List (ℕ × LeaseOperation) → LeaseStore × ℕ
run_leases db now [] = (db, now)
run_leases db now ((wait, o) ∷ os) = run_leases (run_lease db (now + wait) o) (now + wait) os

after-IsLimited :
    (db : LeaseStore) (now : ℕ) (r : Result LeaseError (LeaseStore × ℕ))
    → ((t : LeaseStore × ℕ) → r ≡ ok t → IsLimited (t.0) now)
    → IsLimited db now
    → IsLimited (after db (r >>= λ (t : LeaseStore × ℕ). ok (t.0))) now
after-IsLimited db now (ok t) h v = h t refl
after-IsLimited db now (err e) h v = v

run_lease-IsLimited :
    (db : LeaseStore) (now : ℕ) (o : LeaseOperation)
    → IsLimited db now
    → IsLimited (run_lease db now o) now
run_lease-IsLimited db now (release lease_id) v = release-IsLimited db now lease_id v
run_lease-IsLimited db now (acquire lease_id server_id) v =
    after-IsLimited db now (acquire_server_execution_lease db now lease_id server_id)
      (λ r h.
        let (s, found, room, same) = acquired db now lease_id server_id r h in
        subst (λ (t : LeaseStore × ℕ). IsLimited (t.0) now) same
          (with_lease-IsLimited db now lease_id server_id s found room v))
      v

-- Whatever calls acquire and release leases, and whatever time passes between them, no server has
-- more running leases than its limit, if none had before.
pub run_leases-IsLimited :
    (db : LeaseStore) (now : ℕ) (os : List (ℕ × LeaseOperation))
    → IsLimited db now
    → IsLimited (run_leases db now os).0 (run_leases db now os).1
unfolding run_leases
run_leases-IsLimited db now [] v = v
run_leases-IsLimited db now ((wait, o) ∷ os) v =
    run_leases-IsLimited (run_lease db (now + wait) o) (now + wait) os
      (run_lease-IsLimited db (now + wait) o (later-IsLimited db now (now + wait) (omega arith) v))
