-- ===== src/AuditArchive.antt =====
-- The archive of the audit log (apps/server/src/domain/audit-archive.ts). Moments are seconds.
pub mod Batches
mod Tests
use kajovo_cml.Prelude.{
  ℕ, zero, suc, ◌+◌, ◌*◌, ◌^◌, min, Bool, true, false, not, ◌&&◌, ◌||◌, ◌==◌, nat_eq, option_beq,
  Option, none, some, List, [], ◌∷◌, map, String, any, filter, take, length, update_where, leb,
  if◌then◌else◌, Result, ok, err,
}
use kajovo_cml.Security.Redact.{Json, redact}

pub data OutboxState : Type 0 where
  pending processing archived : OutboxState

-- `audit_archive_outbox`; `event_id` is its key.
pub record OutboxRow : Type 0 where
  pub event_id : ℕ
  pub payload : Json
  pub state : OutboxState
  pub attempt_count : ℕ
  pub next_attempt_at : ℕ
  pub lease_id : Option ℕ
  pub lease_expires_at : Option ℕ
  pub last_error : Option String
  pub archived_at : Option ℕ
  pub updated_at : ℕ

abbrev pub is_past : ℕ → Option ℕ → Bool
is_past now none = false
is_past now (some t) = leb t now

-- The condition of the candidates; `locked` are the rows of other transactions.
abbrev pub is_claimable : (ℕ → Bool) → ℕ → OutboxRow → Bool
is_claimable locked now r =
    elim r.state [ pending ↦ true | processing ↦ is_past now r.lease_expires_at | archived ↦ false ]
    && leb r.next_attempt_at now
    && not (locked r.event_id)

-- `order by event_id`.
pub inserted : OutboxRow → List OutboxRow → List OutboxRow
inserted r [] = r ∷ []
inserted r (s ∷ rows) =
    let rest = inserted r rows in if leb r.event_id s.event_id then r ∷ s ∷ rows else s ∷ rest

pub sorted : List OutboxRow → List OutboxRow
unfolding inserted
sorted [] = []
sorted (r ∷ rows) = inserted r (sorted rows)

unfoldable pub candidate_ids : (ℕ → Bool) → ℕ → ℕ → List OutboxRow → List ℕ
unfolding sorted
candidate_ids locked now batch_size rows =
    map (λ (r : OutboxRow). r.event_id)
      (take batch_size (sorted (filter (is_claimable locked now) rows)))

-- A row of the join of the outbox with the candidates; the key makes it the candidate itself.
abbrev pub is_claimed : (ℕ → Bool) → ℕ → List ℕ → OutboxRow → Bool
is_claimed locked now ids r = any (λ id. id == r.event_id) ids && is_claimable locked now r

abbrev pub claimed : ℕ → ℕ → OutboxRow → OutboxRow
claimed now lease_id r = record r {
  state = processing;
  lease_id = some lease_id;
  lease_expires_at = some (now + 120);
  attempt_count = r.attempt_count + 1;
  updated_at = now;
}

-- `where lease_id=$1 and state='PROCESSING'`.
abbrev pub is_leased : ℕ → OutboxRow → Bool
is_leased lease_id r =
    option_beq r.lease_id (some lease_id) && elim r.state [ processing ↦ true | _ ↦ false ]

abbrev pub archived_row : ℕ → OutboxRow → OutboxRow
archived_row now r = record r {
  state = archived;
  archived_at = some now;
  lease_id = none;
  lease_expires_at = none;
  last_error = none;
  updated_at = now;
}

-- `least(interval '1 hour',interval '5 seconds'*power(2,least(attempt_count,10)))`.
abbrev pub retry_delay : ℕ → ℕ
retry_delay attempts = min 3600 (5 * 2 ^ min attempts 10)

abbrev pub released_row : ℕ → String → OutboxRow → OutboxRow
released_row now message r = record r {
  state = pending;
  next_attempt_at = now + retry_delay r.attempt_count;
  lease_id = none;
  lease_expires_at = none;
  last_error = some message;
  updated_at = now;
}

abbrev pub claim : (ℕ → Bool) → ℕ → ℕ → List ℕ → List OutboxRow → List OutboxRow
claim locked now lease_id ids rows =
    update_where (is_claimed locked now ids) (claimed now lease_id) rows

-- The lines of a batch: the number of an event and its redacted payload.
abbrev pub batch : (ℕ → Bool) → ℕ → List ℕ → List OutboxRow → List (ℕ × Json)
batch locked now ids rows =
    map {B = ℕ × Json} (λ (r : OutboxRow). (r.event_id, redact r.payload))
      (filter (is_claimed locked now ids) rows)

-- The end of a batch, by what writing it came to: none, or what went wrong.
unfoldable pub settle_batch :
    ℕ → ℕ → Option String → ℕ → List OutboxRow → List OutboxRow × Result String ℕ
settle_batch now lease_id none count rows =
    (update_where (is_leased lease_id) (archived_row now) rows, ok count)
settle_batch now lease_id (some message) count rows =
    (update_where (is_leased lease_id) (released_row now message) rows, err message)

-- `archivePendingAuditEvents`, where nobody takes over the lease in between; `write` appends the lines
-- to the file or says what went wrong, in at most 500 characters; `lease_id` is drawn anew.
unfoldable pub archive_pending_audit_events :
    (List (ℕ × Json) → Option String)
    → (ℕ → Bool)
    → List OutboxRow
    → ℕ
    → ℕ
    → ℕ
    → List OutboxRow × Result String ℕ
unfolding candidate_ids settle_batch
archive_pending_audit_events write locked rows now lease_id batch_size =
    let ids = candidate_ids locked now batch_size rows in
    let after_claim = claim locked now lease_id ids rows in
    let lines = batch locked now ids rows in
    if length lines == 0
    then (after_claim, ok 0)
    else settle_batch now lease_id (write lines) (length lines) after_claim
