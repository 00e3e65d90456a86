-- ===== src/Audit/Appends.antt =====
-- The audit log over its whole life (apps/server/src/domain/audit.ts).
use kajovo_cml.Prelude.{
  ℕ, suc, true, Option, none, some, List, [], ◌∷◌, ◌++◌, map, Eq, length, arith, ◌≡◌, refl, ap, sym,
  ◌∙◌, length-map, String,
}
use kajovo_cml.Security.Redact.{Json}
use mathlib.Core.Path.{ap₂}
use mathlib.Core.List.{append-nil, append_assoc, map-append, map-map}
use kajovo_cml.Audit.{
  Ident, HashedDocument, compute_audit_event_hash, AuditInput, AuditRow, AuditStore, empty_store,
  redacted_event, append_audit_event, append_to_store, verify_audit_chain,
}
use kajovo_cml.Audit.Chain.{
  IsChain, done, link, last_hash, IsSealed, append_audit_event-IsSealed, verify_audit_chain-IsChain,
}

module _ {H : Type 0} ⦃e : Eq H⦄ (hash : Option H → AuditInput → H) where
  -- A history of calls of `appendAudit`, each with the id that the table's sequence gave its row.
  unfoldable pub append_all : AuditStore H → List (ℕ × AuditInput) → AuditStore H
  append_all s [] = s
  append_all s ((id, event) ∷ calls) = append_all (append_to_store hash s id event) calls

  append_all-IsSealed :
      (s : AuditStore H) (calls : List (ℕ × AuditInput))
      → IsSealed hash s
      → IsSealed hash (append_all s calls)
  unfolding append_all append_to_store
  append_all-IsSealed s [] v = v
  append_all-IsSealed s ((id, event) ∷ calls) v =
      append_all-IsSealed (append_audit_event hash s id (redacted_event event)) calls
        (append_audit_event-IsSealed hash s id (redacted_event event) v)

  events-append_all :
      (s : AuditStore H) (calls : List (ℕ × AuditInput))
      → map (λ (r : AuditRow H). r.event) (append_all s calls).rows
        ≡ map (λ (r : AuditRow H). r.event) s.rows
          ++ map (λ (c : ℕ × AuditInput). redacted_event c.1) calls
  unfolding append_all append_to_store append_audit_event
  events-append_all s [] = sym (append-nil _)
  events-append_all s ((id, event) ∷ calls) =
      events-append_all (append_to_store hash s id event) calls ∙ simp (map-append, append_assoc)

  empty-IsSealed : IsSealed hash empty_store
  empty-IsSealed = record { chained = done; counted = refl; at_end = refl }

  -- After any history of appends to the empty log, verification answers `valid`, names no broken row
  -- and counts one row for each call, and the rows hold the redacted events in the order of the calls.
  pub append_all-verify :
      (calls : List (ℕ × AuditInput))
      → let s = append_all empty_store calls in
        let report = verify_audit_chain hash s.rows in
        (report.valid ≡ true)
        × (report.broken_event_id ≡ none)
        × (report.event_count ≡ length calls)
        × (map (λ (r : AuditRow H). r.event) s.rows
            ≡ map (λ (c : ℕ × AuditInput). redacted_event c.1) calls)
  append_all-verify calls =
      let s = append_all empty_store calls in
      let (sound, counts, names) = verify_audit_chain-IsChain hash s.rows in
      let accepted = sound.1 (append_all-IsSealed empty_store calls empty-IsSealed).chained in
      let events = events-append_all empty_store calls in
      (
        accepted,
        names.0 accepted,
        counts
            ∙ sym (length-map (λ (r : AuditRow H). r.event) s.rows)
            ∙ ap length events
            ∙ length-map (λ (c : ℕ × AuditInput). redacted_event c.1) calls,
        events,
      )

module _ {H C : Type 0} (hash : Option H → AuditInput → H) (contents : AuditInput → C)
    (injective : (p q : Option H) (a b : AuditInput)
      → hash p a ≡ hash q b
      → (p ≡ q) × (contents a ≡ contents b)) where
  same_events :
      (p q : Option H) (m n : ℕ) (rows others : List (AuditRow H))
      → IsChain hash p m rows
      → IsChain hash q n others
      → length rows ≡ length others
      → last_hash p rows ≡ last_hash q others
      → (p ≡ q)
        × (map (λ (r : AuditRow H). contents r.event) rows
            ≡ map (λ (r : AuditRow H). contents r.event) others)
  same_events p q m n [] [] c d l h = (h, refl)
  same_events p q m n [] (r ∷ others) c d l h = absurd (omega arith)
  same_events p q m n (r ∷ rows) [] c d l h = absurd (omega arith)
  same_events p q m n (r ∷ rows) (o ∷ others) (link _ _ carries c) (link _ _ carries' d) l h =
      let (heads, rest) =
        same_events (some r.event_hash) (some o.event_hash) (suc m) (suc n) rows others c d
          (omega arith) h in
      let digests : r.event_hash ≡ o.event_hash = cc in
      let (previous, event) = injective p q r.event o.event (sym carries ∙ digests ∙ carries') in
      (previous, ap₂ ◌∷◌ event rest)

-- All that an event tells, its two states as `jsonb` values.
abbrev pub contents :
    {J : Type 0}
    → (Json → J)
    → AuditInput
    → String × String × Option Ident × Option String × Option Ident × J × J × ℕ
contents jsonb event = (
  event.event_type,
  event.actor_type,
  event.actor_id,
  event.object_type,
  event.object_id,
  jsonb event.before,
  jsonb event.after,
  event.correlation_id,
)

module _ {H J : Type 0} ⦃e : Eq H⦄ (jsonb : Json → J) (digest : HashedDocument H J → H)
    (injective : (x y : HashedDocument H J) → digest x ≡ digest y → x ≡ y) where
  hash_inj :
      (p q : Option H) (a b : AuditInput)
      → compute_audit_event_hash jsonb digest p a ≡ compute_audit_event_hash jsonb digest q b
      → (p ≡ q) × (contents jsonb a ≡ contents jsonb b)
  unfolding compute_audit_event_hash
  hash_inj p q a b h =
      let same = injective _ _ h in
      (
        ap (λ (x : HashedDocument H J). x.prev_hash) same,
        ap
            (λ (x : HashedDocument H J). (
              x.event_type, x.actor_type, x.actor_id, x.object_type, x.object_id, x.before, x.after,
              x.correlation_id,
            ))
            same,
      )

  -- If SHA-256 has no collision, then verification is proof against every change under the head: after any
  -- history of appends to the empty log, rows that verification accepts, as many as `audit_head` counts and the
  -- last with its digest, tell just what the calls' redacted events tell, in their order.
  pub audit_head_commits :
      (calls : List (ℕ × AuditInput)) (rows : List (AuditRow H))
      → let hash = compute_audit_event_hash jsonb digest in
        let s = append_all hash empty_store calls in
        (verify_audit_chain hash rows).valid ≡ true
        → length rows ≡ s.last_sequence
        → last_hash none rows ≡ s.head_hash
        → map (λ (r : AuditRow H). contents jsonb r.event) rows
          ≡ map (λ (c : ℕ × AuditInput). contents jsonb (redacted_event c.1)) calls
  audit_head_commits calls rows accepted counted at_end =
      let hash = compute_audit_event_hash jsonb digest in
      let s = append_all hash empty_store calls in
      let v = append_all-IsSealed hash empty_store calls (empty-IsSealed hash) in
      let chained = (verify_audit_chain-IsChain hash rows).0.0 accepted in
      let same =
        (same_events hash (contents jsonb) hash_inj none none 0 0 rows s.rows chained v.chained
          (counted ∙ v.counted) (at_end ∙ v.at_end)).1 in
      let told = ap (map (contents jsonb)) (events-append_all hash empty_store calls) in
      same
      ∙ sym (map-map (contents jsonb) (λ (r : AuditRow H). r.event) s.rows)
      ∙ told
      ∙ map-map (contents jsonb) (λ (c : ℕ × AuditInput). redacted_event c.1) calls
