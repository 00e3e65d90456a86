-- ===== src/Audit/Tests.antt =====
-- Runs of the audit log, with a digest that keeps everything and one that keeps a number.
use kajovo_cml.Prelude.{
  ℕ, ◌+◌, true, Option, none, some, [], ◌∷◌, map, nat_eq, length, List, String, Bool-cases, ◌==◌,
  string_eq, Eq, Bool, false, inl, inr, Option-cases, sym, ap, ◌∙◌, ◌≡◌, ◌↔◌, refl,
}
use kajovo_cml.Security.Redact.{Json, null, num, object}
use native.Mathlib.Decide.{ℕ_discrete}
use kajovo_cml.Audit.{
  HashedDocument, compute_audit_event_hash, Ident, uuid, AuditInput, AuditRow, empty_store,
  redacted_event, verify_audit_chain, append_to_store, append_audit_event,
}
use kajovo_cml.Audit.Chain.{IsChain, verify_audit_chain-IsChain}
use kajovo_cml.Audit.Appends.{append_all, append_all-verify, contents, audit_head_commits}

abbrev opened : AuditInput
opened = record {
  event_type = "alert.opened";
  actor_type = "system";
  actor_id = none;
  object_type = some "operational_alert";
  object_id = some (uuid 4);
  before = null;
  after = object (("token", num 5) ∷ []);
  correlation_id = 9;
}

abbrev number_hash : Option ℕ → AuditInput → ℕ
number_hash none event = event.correlation_id
number_hash (some p) event = p + event.correlation_id + 1

append_all-verify_example :
    let s = append_all number_hash empty_store ((1, opened) ∷ (3, opened) ∷ []) in
    let report = verify_audit_chain number_hash s.rows in
    (report.valid ≡ true)
    × (report.broken_event_id ≡ none)
    × (report.event_count ≡ 2)
    × (map (λ (r : AuditRow ℕ). r.event) s.rows
        ≡ redacted_event opened ∷ redacted_event opened ∷ [])
append_all-verify_example = append_all-verify number_hash ((1, opened) ∷ (3, opened) ∷ [])

-- A digest that keeps the document.
data Digest : Type 0 where
  root : String → String → Option Ident → Option String → Option Ident → Json → Json → ℕ → Digest
  behind :
      Digest
      → String
      → String
      → Option Ident
      → Option String
      → Option Ident
      → Json
      → Json
      → ℕ
      → Digest

abbrev whole_digest : HashedDocument Digest Json → Digest
whole_digest x = elim x.prev_hash [
  | none ↦
      root x.event_type x.actor_type x.actor_id x.object_type x.object_id x.before x.after
        x.correlation_id
  | some d ↦
      behind d x.event_type x.actor_type x.actor_id x.object_type x.object_id x.before x.after
        x.correlation_id
]

String-discrete : Discrete String
String-discrete s t = elim (Bool-cases (s == t)) [
  | inl e ↦ yes ((string_eq.beq_iff s t).0 e)
  | inr e ↦ no (λ p. cc (e, (string_eq.beq_iff s t).1 p))
]

Digest-discrete : Discrete Digest
Digest-discrete = hlevel (ℕ_discrete, String-discrete)

abbrev decided : {A : Type 0} → Dec A → Bool
decided (yes a) = true
decided (no n) = false

decided_iff : {A : Type 0} (d : Dec A) → (decided d ≡ true) ↔ A
decided_iff (yes a) = (λ h. a, λ h. refl)
decided_iff (no n) = (λ h. cc, λ a. absurd (n a))

instance digest_eq : Eq Digest
digest_eq = record {
  beq = λ x y. decided (Digest-discrete x y);
  beq_iff = λ x y. decided_iff (Digest-discrete x y);
}

abbrev document : Digest → HashedDocument Digest Json
document (root event_type actor_type actor_id object_type object_id before after correlation_id) =
    record {
      prev_hash = none;
      event_type = event_type;
      actor_type = actor_type;
      actor_id = actor_id;
      object_type = object_type;
      object_id = object_id;
      before = before;
      after = after;
      correlation_id = correlation_id;
    }
document
      (behind d event_type actor_type actor_id object_type object_id before after correlation_id) =
    record {
      prev_hash = some d;
      event_type = event_type;
      actor_type = actor_type;
      actor_id = actor_id;
      object_type = object_type;
      object_id = object_id;
      before = before;
      after = after;
      correlation_id = correlation_id;
    }

document-whole_digest : (x : HashedDocument Digest Json) → document (whole_digest x) ≡ x
document-whole_digest x = elim (Option-cases x.prev_hash) [
  | inl e ↦ rw e refl
  | inr (d, e) ↦ rw e refl
]

whole_digest_inj : (x y : HashedDocument Digest Json) → whole_digest x ≡ whole_digest y → x ≡ y
whole_digest_inj x y h = sym (document-whole_digest x) ∙ ap document h ∙ document-whole_digest y

abbrev two_calls : List (ℕ × AuditInput)
two_calls = (1, opened) ∷ (3, opened) ∷ []

abbrev whole_hash : Option Digest → AuditInput → Digest
whole_hash = compute_audit_event_hash (λ (j : Json). j) whole_digest

abbrev two_rows : List (AuditRow Digest)
two_rows = (append_all whole_hash empty_store two_calls).rows

audit_head_commits_example :
    map (λ (r : AuditRow Digest). contents (λ (j : Json). j) r.event) two_rows
    ≡ map (λ (c : ℕ × AuditInput). contents (λ (j : Json). j) (redacted_event c.1)) two_calls
unfolding append_to_store append_audit_event append_all
audit_head_commits_example =
    audit_head_commits (λ (j : Json). j) whole_digest whole_digest_inj two_calls two_rows
      (append_all-verify whole_hash two_calls).0 refl refl

abbrev number_rows : List (AuditRow ℕ)
number_rows = (append_all number_hash empty_store ((1, opened) ∷ (3, opened) ∷ [])).rows

verify_audit_chain-IsChain_example :
    (((verify_audit_chain number_hash number_rows).valid ≡ true)
      ↔ IsChain number_hash none 0 number_rows)
    × ((verify_audit_chain number_hash number_rows).event_count ≡ length number_rows)
    × (((verify_audit_chain number_hash number_rows).valid ≡ true)
        ↔ ((verify_audit_chain number_hash number_rows).broken_event_id ≡ none))
verify_audit_chain-IsChain_example = verify_audit_chain-IsChain number_hash number_rows
