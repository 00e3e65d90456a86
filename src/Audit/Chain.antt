-- ===== src/Audit/Chain.antt =====
-- The hash chain of the audit log: what verification accepts, and what it commits to.
use kajovo_cml.Prelude.{
  ℕ, suc, ◌+◌, true, Option, none, some, List, [], ◌∷◌, ◌++◌, Eq, nat_eq, option_beq_iff, length,
  arith, ◌≡◌, refl, ◌↔◌, ap, sym, Bool-cases, inl, inr, Option-cases, length-append,
}
use kajovo_cml.Audit.{
  AuditInput, AuditRow, AuditStore, append_audit_event, row_fits, first_broken, verify_audit_chain,
}

-- The specification: each row has the next number, names the digest of the row before it, and
-- carries the digest of that and its event.
pub data IsChain {H : Type 0} (hash : Option H → AuditInput → H)
    : Option H → ℕ → List (AuditRow H) → Type 0 where
  done : {previous : Option H} {sequence : ℕ} → IsChain hash previous sequence []
  link :
      {previous : Option H} {sequence : ℕ} {r : AuditRow H} {rows : List (AuditRow H)}
      → r.chain_sequence ≡ suc sequence
      → r.prev_hash ≡ previous
      → r.event_hash ≡ hash previous r.event
      → IsChain hash (some r.event_hash) (suc sequence) rows
      → IsChain hash previous sequence (r ∷ rows)

-- The digest that the next row names.
abbrev pub last_hash : {H : Type 0} → Option H → List (AuditRow H) → Option H
last_hash previous [] = previous
last_hash previous (r ∷ rows) = last_hash (some r.event_hash) rows

-- The rows form a chain, and `audit_head` stands at its end.
pub record IsSealed {H : Type 0} (hash : Option H → AuditInput → H) (s : AuditStore H)
    : Type 0 where
  pub chained : IsChain hash none 0 s.rows
  pub counted : s.last_sequence ≡ length s.rows
  pub at_end : s.head_hash ≡ last_hash none s.rows

module _ {H : Type 0} ⦃e : Eq H⦄ (hash : Option H → AuditInput → H) where
  row_fits_iff :
      (previous : Option H) (sequence : ℕ) (r : AuditRow H)
      → (row_fits hash previous sequence r ≡ true) ↔ (
          (r.chain_sequence ≡ suc sequence)
          × (r.prev_hash ≡ previous)
          × (r.event_hash ≡ hash previous r.event))
  unfolding row_fits
  row_fits_iff previous sequence r =
      ground
        (arith, option_beq_iff r.prev_hash previous, e.beq_iff r.event_hash (hash previous r.event))

  first_broken_iff :
      (previous : Option H) (sequence : ℕ) (rows : List (AuditRow H))
      → (first_broken hash previous sequence rows ≡ none) ↔ IsChain hash previous sequence rows
  unfolding first_broken
  first_broken_iff previous sequence [] = (λ h. done, λ c. refl)
  first_broken_iff previous sequence (r ∷ rows) =
      elim (Bool-cases (row_fits hash previous sequence r)) [
        | inl fits ↦
            let (number, names, carries) = (row_fits_iff previous sequence r).0 fits in
            let rest = first_broken_iff (some r.event_hash) (suc sequence) rows in
            rw fits (λ h. link number names carries (rest.0 h), λ c. rest.1 (chain_tail c))
        | inr misfit ↦
            rw misfit
              (λ h. cc, λ c. cc (misfit, (row_fits_iff previous sequence r).1 (chain_head c)))
      ]
    where
      chain_tail :
          {p : Option H} {n : ℕ} {q : AuditRow H} {qs : List (AuditRow H)}
          → IsChain hash p n (q ∷ qs)
          → IsChain hash (some q.event_hash) (suc n) qs
      chain_tail (link number names carries c) = c

      chain_head :
          {p : Option H} {n : ℕ} {q : AuditRow H} {qs : List (AuditRow H)}
          → IsChain hash p n (q ∷ qs)
          → (q.chain_sequence ≡ suc n) × (q.prev_hash ≡ p) × (q.event_hash ≡ hash p q.event)
      chain_head (link number names carries c) = (number, names, carries)

  -- Verification answers `valid` exactly when the rows form a chain from the empty head, and it counts
  -- them all.
  pub verify_audit_chain-IsChain :
      (rows : List (AuditRow H))
      → (((verify_audit_chain hash rows).valid ≡ true) ↔ IsChain hash none 0 rows)
        × ((verify_audit_chain hash rows).event_count ≡ length rows)
        × (((verify_audit_chain hash rows).valid ≡ true)
            ↔ ((verify_audit_chain hash rows).broken_event_id ≡ none))
  unfolding verify_audit_chain
  verify_audit_chain-IsChain rows = elim (Option-cases (first_broken hash none 0 rows)) [
    | inl whole ↦
        rw (whole, verify_audit_chain)
          ((λ h. (first_broken_iff none 0 rows).0 whole, λ c. refl), refl, (λ h. refl, λ h. refl))
    | inr (id, broken) ↦
        rw (broken, verify_audit_chain)
          (
            (λ h. cc, λ c. cc (broken, (first_broken_iff none 0 rows).1 c)),
            refl,
            (λ h. cc, λ h. cc),
          )
  ]

  IsChain-append :
      (previous : Option H) (sequence : ℕ) (rows : List (AuditRow H)) (r : AuditRow H)
      → IsChain hash previous sequence rows
      → r.chain_sequence ≡ suc (sequence + length rows)
      → r.prev_hash ≡ last_hash previous rows
      → r.event_hash ≡ hash (last_hash previous rows) r.event
      → IsChain hash previous sequence (rows ++ r ∷ [])
  IsChain-append previous sequence [] r done number names carries =
      link (omega arith) names carries done
  IsChain-append previous sequence (q ∷ rows) r (link n p h c) number names carries =
      link n p h
        (IsChain-append (some q.event_hash) (suc sequence) rows r c (omega arith) names carries)

  last_hash-append :
      (previous : Option H) (rows : List (AuditRow H)) (r : AuditRow H)
      → last_hash previous (rows ++ r ∷ []) ≡ some r.event_hash
  last_hash-append previous [] r = refl
  last_hash-append previous (q ∷ rows) r = last_hash-append (some q.event_hash) rows r

  pub append_audit_event-IsSealed :
      (s : AuditStore H) (id : ℕ) (event : AuditInput)
      → IsSealed hash s
      → IsSealed hash (append_audit_event hash s id event)
  unfolding append_audit_event
  append_audit_event-IsSealed s id event v = record {
    chained =
        IsChain-append none 0 s.rows _ v.chained (omega (arith, v.counted)) v.at_end
          (ap (λ p. hash p event) v.at_end);
    counted = omega (arith, length-append s.rows, v.counted);
    at_end = sym (last_hash-append none s.rows _);
  }
