-- ===== src/AuditArchive/Tests.antt =====
-- A batch of two events whose file is written, beside one that is locked.
use kajovo_cml.Prelude.{
  ℕ, ◌+◌, Bool, Option, none, List, [], ◌∷◌, count_where, ◌==◌, nat_eq, ◌≡◌, refl, String,
}
use kajovo_cml.Security.Redact.{Json, null}
use kajovo_cml.AuditArchive.{
  OutboxState, OutboxRow, pending, archived, archive_pending_audit_events,
}
use kajovo_cml.AuditArchive.Batches.{is_archived, reported, archive_pending_audit_events-count}

abbrev row : ℕ → OutboxState → OutboxRow
row n state = record {
  event_id = n;
  payload = null;
  state = state;
  attempt_count = 0;
  next_attempt_at = 0;
  lease_id = none;
  lease_expires_at = none;
  last_error = none;
  archived_at = none;
  updated_at = 0;
}

abbrev outbox : List OutboxRow
outbox = row 7 pending ∷ row 3 archived ∷ row 5 pending ∷ row 4 pending ∷ []

abbrev written : List (ℕ × Json) → Option String
written lines = none

abbrev locks : ℕ → Bool
locks id = id == 4

archive_pending_audit_events-count_example :
    let done = archive_pending_audit_events written locks outbox 100 9 10 in
    count_where is_archived (done.0) ≡ count_where is_archived outbox + reported (done.1)
archive_pending_audit_events-count_example =
    archive_pending_audit_events-count written locks outbox 100 9 10
      (refl, (refl, (refl, (refl, tt))))

archived_two : reported ((archive_pending_audit_events written locks outbox 100 9 10).1) ≡ 2
unfolding archive_pending_audit_events
archived_two = refl
