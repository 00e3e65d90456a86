-- ===== src/Audit.antt =====
-- apps/server/src/domain/audit.ts, and the database functions that it calls: the trigger that links a
-- new row to the last one and `verify_audit_chain` (apps/server/src/migrations).
pub mod Chain
pub mod Appends
mod Tests
use kajovo_cml.Prelude.{
  ℕ, suc, ◌+◌, Bool, true, false, ◌&&◌, Option, none, some, List, [], ◌∷◌, ◌++◌, String, Eq, ◌==◌,
  nat_eq, option_beq, if◌then◌else◌, length, max,
}
use kajovo_cml.Security.Redact.{Json, null, redact}

-- An identifier in an event: a uuid, or a name such as the code of a component.
pub data Ident : Type 0 where
  uuid : ℕ → Ident
  name : String → Ident

pub record AuditInput : Type 0 where
  pub event_type : String
  pub actor_type : String
  pub actor_id : Option Ident
  pub object_type : Option String
  pub object_id : Option Ident
  pub before : Json
  pub after : Json
  pub correlation_id : ℕ

-- What `appendAuditWithClient` hands to `append_audit_event`; an absent `before` or `after` is `null`.
unfoldable pub redacted_event : AuditInput → AuditInput
redacted_event event = record event { before = redact event.before; after = redact event.after }

-- The events of a transaction's connection, the newest first.
abbrev pub AuditLog : Type 0
AuditLog = List AuditInput

unfoldable pub append_audit : AuditLog → AuditInput → AuditLog
append_audit log event = redacted_event event ∷ log

-- A row of `audit_event`; `H` is the type of the digests.
pub record AuditRow (H : Type 0) : Type 0 where
  pub id : ℕ
  pub event : AuditInput
  pub chain_sequence : ℕ
  pub prev_hash : Option H
  pub event_hash : H

-- The table in the order of `chain_sequence`, and the singleton row of `audit_head`.
pub record AuditStore (H : Type 0) : Type 0 where
  pub rows : List (AuditRow H)
  pub last_sequence : ℕ
  pub head_hash : Option H

abbrev pub empty_store : {H : Type 0} → AuditStore H
empty_store = record { rows = []; last_sequence = 0; head_hash = none }

pub record ChainReport : Type 0 where
  pub valid : Bool
  pub event_count : ℕ
  pub latest_event_id : Option ℕ
  pub broken_event_id : Option ℕ

-- `max(id)`.
pub max_id : {H : Type 0} → List (AuditRow H) → Option ℕ
max_id [] = none
max_id (r ∷ rows) = some (elim (max_id rows) [ none ↦ r.id | some m ↦ max r.id m ])

-- The document that `compute_audit_event_hash` builds with `jsonb_build_object`; `J` is the type of
-- `jsonb` values, and an identifier stands for its text.
pub record HashedDocument (H J : Type 0) : Type 0 where
  pub prev_hash : Option H
  pub event_type : String
  pub actor_type : String
  pub actor_id : Option Ident
  pub object_type : Option String
  pub object_id : Option Ident
  pub before : J
  pub after : J
  pub correlation_id : ℕ

-- `jsonb` is the database's cast of a JSON value, and `digest` the SHA-256 of the document's text.
module _ {H J : Type 0} (jsonb : Json → J) (digest : HashedDocument H J → H) where
  unfoldable pub compute_audit_event_hash : Option H → AuditInput → H
  compute_audit_event_hash prev_hash event = digest (record {
    prev_hash = prev_hash;
    event_type = event.event_type;
    actor_type = event.actor_type;
    actor_id = event.actor_id;
    object_type = event.object_type;
    object_id = event.object_id;
    before = jsonb event.before;
    after = jsonb event.after;
    correlation_id = event.correlation_id;
  })

-- `hash` is the digest of the previous digest and an event: `compute_audit_event_hash` with the
-- database's functions.
module _ {H : Type 0} ⦃e : Eq H⦄ (hash : Option H → AuditInput → H) where
  -- `append_audit_event` with the trigger `audit_event_hash_before_insert`: the row gets the next
  -- number of the chain, and the head moves on to it.
  pub append_audit_event : AuditStore H → ℕ → AuditInput → AuditStore H
  append_audit_event s id event =
      let new_hash = hash s.head_hash event in
      record {
        rows =
            s.rows
            ++ record {
              id = id;
              event = event;
              chain_sequence = suc s.last_sequence;
              prev_hash = s.head_hash;
              event_hash = new_hash;
            }
              ∷ [];
        last_sequence = suc s.last_sequence;
        head_hash = some new_hash;
      }

  -- `appendAudit`: what it is given is redacted before it is hashed and stored.
  pub append_to_store : AuditStore H → ℕ → AuditInput → AuditStore H
  append_to_store s id event = append_audit_event s id (redacted_event event)

  -- The test of the loop of `verify_audit_chain`, behind `sequence` rows of which the last has the
  -- digest `previous`.
  pub row_fits : Option H → ℕ → AuditRow H → Bool
  row_fits previous sequence r =
      (r.chain_sequence == suc sequence)
      && option_beq r.prev_hash previous
      && (r.event_hash == hash previous r.event)

  -- The loop: the id of the first row that does not fit.
  pub first_broken : Option H → ℕ → List (AuditRow H) → Option ℕ
  first_broken previous sequence [] = none
  first_broken previous sequence (r ∷ rows) =
      let rest = first_broken (some r.event_hash) (suc sequence) rows in
      if row_fits previous sequence r then rest else some r.id

  pub verify_audit_chain : List (AuditRow H) → ChainReport
  verify_audit_chain rows = elim (first_broken none 0 rows) [
    | none ↦ record {
      valid = true;
      event_count = length rows;
      latest_event_id = max_id rows;
      broken_event_id = none;
    }
    | some id ↦ record {
      valid = false;
      event_count = length rows;
      latest_event_id = max_id rows;
      broken_event_id = some id;
    }
  ]
