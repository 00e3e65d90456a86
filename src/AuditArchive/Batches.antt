-- ===== src/AuditArchive/Batches.antt =====
-- How many events a batch archives (apps/server/src/domain/audit-archive.ts).
use kajovo_cml.Prelude.{
  ℕ, suc, ◌+◌, Bool, true, false, not, ◌&&◌, ◌==◌, nat_eq, nat_beq_iff, option_beq, Option, none,
  some, List, [], ◌∷◌, String, any, length, update_where, count_where, All, leb, ◌≡◌, refl, ap, inl,
  inr, arith, Bool-cases, Result, ok, err,
}
use kajovo_cml.Security.Redact.{Json}
use kajovo_cml.AuditArchive.{
  OutboxState, OutboxRow, pending, processing, archived, is_past, is_claimed, claimed, is_leased,
  archived_row, released_row, candidate_ids, claim, batch, settle_batch,
  archive_pending_audit_events,
}

abbrev pub is_archived : OutboxRow → Bool
is_archived r = elim r.state [ archived ↦ true | _ ↦ false ]

-- No row carries the lease.
abbrev pub IsFresh : ℕ → List OutboxRow → Type 0
IsFresh lease_id rows = All (λ (r : OutboxRow). option_beq r.lease_id (some lease_id) ≡ false) rows

module _ (locked : ℕ → Bool) (now lease_id : ℕ) (ids : List ℕ) where
  claimed_leased : (r : OutboxRow) → is_leased lease_id (claimed now lease_id r) ≡ true
  claimed_leased r = ground (arith, (nat_beq_iff lease_id lease_id))

  live_state :
      (s : OutboxState) (a b c d : Bool)
      → a && (elim s [ pending ↦ true | processing ↦ b | archived ↦ false ] && c && d) ≡ true
      → elim s [ archived ↦ true | _ ↦ false ] ≡ false
  live_state pending a b c d e = refl
  live_state processing a b c d e = refl
  live_state archived true b c d e = ground arith
  live_state archived false b c d e = ground arith

  claimed_live : (r : OutboxRow) → is_claimed locked now ids r ≡ true → is_archived r ≡ false
  claimed_live r =
      live_state (r.state) (any (λ id. id == r.event_id) ids) (is_past now r.lease_expires_at)
        (leb r.next_attempt_at now) (not (locked r.event_id))

  archive_count :
      (rows : List OutboxRow)
      → IsFresh lease_id rows
      → count_where is_archived (
          update_where (is_leased lease_id) (archived_row now) (claim locked now lease_id ids rows))
        ≡ count_where is_archived rows + count_where (is_claimed locked now ids) rows
  archive_count [] fresh = omega arith
  archive_count (r ∷ rows) fresh =
      let rest = archive_count rows (fresh.1) in
      let own = fresh.0 in
      elim (Bool-cases (is_claimed locked now ids r)) [
        | inl e ↦ rw e (rw (claimed_live r e) (rw (claimed_leased r) omega (arith, rest)))
        | inr e ↦ rw e (
            rw own (elim (Bool-cases (is_archived r)) [
              | inl a ↦ rw a omega (arith, rest)
              | inr a ↦ rw a omega (arith, rest)
            ]))
      ]

  released_count :
      (message : String) (rows : List OutboxRow)
      → IsFresh lease_id rows
      → count_where is_archived (
          update_where
            (is_leased lease_id)
            (released_row now message)
            (claim locked now lease_id ids rows))
        ≡ count_where is_archived rows
  released_count message [] fresh = refl
  released_count message (r ∷ rows) fresh =
      let rest = released_count message rows (fresh.1) in
      let own = fresh.0 in
      elim (Bool-cases (is_claimed locked now ids r)) [
        | inl e ↦ rw e (rw (claimed_live r e) (rw (claimed_leased r) rest))
        | inr e ↦ rw e (
            rw own (elim (Bool-cases (is_archived r)) [
              | inl a ↦ rw a (ap suc rest)
              | inr a ↦ rw a rest
            ]))
      ]

  length-batch :
      (rows : List OutboxRow)
      → length (batch locked now ids rows) ≡ count_where (is_claimed locked now ids) rows
  length-batch [] = refl
  length-batch (r ∷ rows) =
      let rest = length-batch rows in
      elim (Bool-cases (is_claimed locked now ids r)) [
        | inl e ↦ rw e (ap suc rest)
        | inr e ↦ rw e rest
      ]

  claim_count :
      (rows : List OutboxRow)
      → count_where is_archived (claim locked now lease_id ids rows) ≡ count_where is_archived rows
  claim_count [] = refl
  claim_count (r ∷ rows) =
      let rest = claim_count rows in
      elim (Bool-cases (is_claimed locked now ids r)) [
        | inl e ↦ rw e (rw (claimed_live r e) rest)
        | inr e ↦
            rw e
              (elim (Bool-cases (is_archived r)) [ inl a ↦ rw a (ap suc rest) | inr a ↦ rw a rest ])
      ]

-- The events that a batch is said to have archived.
abbrev pub reported : Result String ℕ → ℕ
reported (ok n) = n
reported (err message) = 0

settled_count :
    (locked : ℕ → Bool) (now lease_id : ℕ) (ids : List ℕ) (rows : List OutboxRow)
    (failure : Option String)
    → IsFresh lease_id rows
    → (let done =
          settle_batch now lease_id failure
            (length (batch locked now ids rows))
            (claim locked now lease_id ids rows) in
        count_where is_archived (done.0) ≡ count_where is_archived rows + reported (done.1))
unfolding settle_batch
settled_count locked now lease_id ids rows none fresh =
    rw (length-batch locked now lease_id ids rows)
      (archive_count locked now lease_id ids rows fresh)
settled_count locked now lease_id ids rows (some message) fresh =
    let c = released_count locked now lease_id ids message rows fresh in omega (arith, c)

-- Under a lease that no row carries, the newly archived rows of the outbox are as many as the number that
-- is returned, and none where the batch was empty or an error is thrown.
pub archive_pending_audit_events-count :
    (write : List (ℕ × Json) → Option String) (locked : ℕ → Bool) (rows : List OutboxRow)
    (now lease_id batch_size : ℕ)
    → IsFresh lease_id rows
    → (let done = archive_pending_audit_events write locked rows now lease_id batch_size in
        count_where is_archived (done.0) ≡ count_where is_archived rows + reported (done.1))
unfolding archive_pending_audit_events
archive_pending_audit_events-count write locked rows now lease_id batch_size fresh =
    let ids = candidate_ids locked now batch_size rows in
    let lines = batch locked now ids rows in
    elim (Bool-cases (length lines == 0)) [
      | inl e ↦ rw e (let c = claim_count locked now lease_id ids rows in omega (arith, c))
      | inr e ↦ rw e (settled_count locked now lease_id ids rows (write lines) fresh)
    ]
