-- ===== src/Credentials/Passing.antt =====
-- Just which bearer tokens `authorizeManagedServiceToken` accepts
-- (apps/server/src/domain/managed-service.ts).
use kajovo_cml.Prelude.{
  ℕ, Bool, true, not, ◌&&◌, ◌==◌, nat_eq, nat_beq_iff, string_eq, Option, none, some, is_some, List,
  ◌≡◌, refl, subst, ◌↔◌, inl, inr, Bool-cases, Option-cases, Result-cases, ok, guard_iff, >>_iff,
  find,
}
use kajovo_cml.Credentials.External.{Probe}
use kajovo_cml.Credentials.Store.{
  Store, CredentialRow, ServiceRow, TokenRow, is_before, credential_of, service_of,
}
use kajovo_cml.Credentials.Access.{
  assert_managed_service_runtime_available, current_managed_service_scopes,
}
use kajovo_cml.Credentials.Authorize.{
  TokenRequest, Candidate, revision_of, is_wanted, joined, candidate, validation_state_of,
  kind_checks, token_checks,
}
use kajovo_cml.Credentials.Decision.{has_all, decided, decided_of, authorize_managed_service_token}

-- What a candidate has to meet.
pub record Passes (now : ℕ) (r : TokenRequest) (c : Candidate) (probes : List Probe) : Type 0 where
  pub environment :
      (c.token.environment == r.environment && c.service.environment == r.environment) ≡ true
  pub usable :
      (c.credential.active
        && not (is_some c.credential.revoked_at)
        && not (is_some c.credential.deleted_at))
      ≡ true
  pub unexpired : is_before now c.credential.expires_at ≡ true
  pub principal_epoch : c.token.principal_token_epoch ≡ c.credential.principal_token_epoch
  pub service_epoch : c.token.service_token_epoch ≡ c.service.service_token_epoch
  pub permission_epoch : c.token.permission_epoch_snapshot ≡ c.service.permission_epoch
  pub revision_epoch : c.token.active_revision_epoch_snapshot ≡ c.service.active_revision_epoch
  pub has_revision : is_some c.service.active_revision_id ≡ true
  pub available :
      assert_managed_service_runtime_available now c.service (validation_state_of c.revision)
      ≡ ok tt
  pub kind : kind_checks now r c.service c.revision probes c.service.service_kind ≡ ok tt

module _ (now : ℕ) (r : TokenRequest) where
  pub token_checks-Passes :
      (c : Candidate) (probes : List Probe)
      → token_checks now r c probes ≡ ok tt
      → Passes now r c probes
  unfolding token_checks
  token_checks-Passes c probes h =
      let (h9, kind) = (>>_iff _ _ tt).0 h in
      let (h8, available) = (>>_iff _ _ tt).0 h9 in
      let (h7, has_revision) = (>>_iff _ _ tt).0 h8 in
      let (h6, revision_epoch) = (>>_iff _ _ tt).0 h7 in
      let (h5, permission_epoch) = (>>_iff _ _ tt).0 h6 in
      let (h4, service_epoch) = (>>_iff _ _ tt).0 h5 in
      let (h3, principal_epoch) = (>>_iff _ _ tt).0 h4 in
      let (h2, unexpired) = (>>_iff _ _ tt).0 h3 in
      let (environment, usable) = (>>_iff _ _ tt).0 h2 in
      record {
        environment = (guard_iff _ _).0 environment;
        usable = (guard_iff _ _).0 usable;
        unexpired = (guard_iff _ _).0 unexpired;
        principal_epoch = (nat_beq_iff _ _).0 ((guard_iff _ _).0 principal_epoch);
        service_epoch = (nat_beq_iff _ _).0 ((guard_iff _ _).0 service_epoch);
        permission_epoch = (nat_beq_iff _ _).0 ((guard_iff _ _).0 permission_epoch);
        revision_epoch = (nat_beq_iff _ _).0 ((guard_iff _ _).0 revision_epoch);
        has_revision = (guard_iff _ _).0 has_revision;
        available = available;
        kind = kind;
      }

  pub Passes-token_checks :
      (c : Candidate) (probes : List Probe)
      → Passes now r c probes
      → token_checks now r c probes ≡ ok tt
  unfolding token_checks
  Passes-token_checks c probes p = (>>_iff _ _ tt).1 (
    (>>_iff _ _ tt).1 (
      (>>_iff _ _ tt).1 (
        (>>_iff _ _ tt).1 (
          (>>_iff _ _ tt).1 (
            (>>_iff _ _ tt).1 (
              (>>_iff _ _ tt).1 (
                (>>_iff _ _ tt).1 (
                  (>>_iff _ _ tt).1 ((guard_iff _ _).1 p.environment, (guard_iff _ _).1 p.usable),
                  (guard_iff _ _).1 p.unexpired,
                ),
                (guard_iff _ _).1 ((nat_beq_iff _ _).1 p.principal_epoch),
              ),
              (guard_iff _ _).1 ((nat_beq_iff _ _).1 p.service_epoch),
            ),
            (guard_iff _ _).1 ((nat_beq_iff _ _).1 p.permission_epoch),
          ),
          (guard_iff _ _).1 ((nat_beq_iff _ _).1 p.revision_epoch),
        ),
        (guard_iff _ _).1 p.has_revision,
      ),
      p.available,
    ),
    p.kind,
  )

  -- The rows that a candidate joins.
  abbrev pub Rows : Store → Option Candidate → Type 0
  Rows s none = Unit
  Rows s (some c) =
      (find (is_wanted now r) s.tokens ≡ some c.token)
      × (credential_of c.token.credential_id s ≡ some c.credential)
      × (service_of c.token.managed_service_id s ≡ some c.service)
      × (c.revision ≡ revision_of s c.service)

  joined-Rows :
      (s : Store) (token : TokenRow) (credential : Option CredentialRow)
      (service : Option ServiceRow)
      → find (is_wanted now r) s.tokens ≡ some token
      → credential_of token.credential_id s ≡ credential
      → service_of token.managed_service_id s ≡ service
      → Rows s (joined s token credential service)
  joined-Rows s token none service e f g = tt
  joined-Rows s token (some credential) none e f g = tt
  joined-Rows s token (some credential) (some service) e f g = (e, f, g, refl)

  pub candidate-Rows : (s : Store) → Rows s (candidate now r s)
  unfolding candidate
  candidate-Rows s = elim (Option-cases (find (is_wanted now r) s.tokens)) [
    | inl e ↦ rw e tt
    | inr (token, e) ↦ rw e (joined-Rows s token _ _ e refl refl)
  ]

  abbrev pub holds_all : Store → Candidate → Bool
  holds_all s c =
      has_all
        (current_managed_service_scopes now s c.token.credential_id c.token.managed_service_id)
        r.required_scopes

  passed_iff :
      (decision_id : ℕ) (s : Store) (c : Candidate)
      → ((decided now decision_id r c s (token_checks now r c s.probes)).0.allow ≡ true)
        ↔ (Passes now r c s.probes × (holds_all s c ≡ true))
  passed_iff decision_id s c = elim (Result-cases (token_checks now r c s.probes)) [
    | inr (e, k) ↦ (
      λ h. cc (subst (λ x. (decided now decision_id r c s x).0.allow ≡ true) k h),
      λ p. cc (k, Passes-token_checks c s.probes (p.0)),
    )
    | inl (done, k) ↦ elim (Bool-cases (holds_all s c)) [
      | inl a ↦ rw (k, a) (λ h. (token_checks-Passes c s.probes k, refl), λ p. refl)
      | inr a ↦ rw (k, a) (λ h. cc, λ p. cc (p.1))
    ]
  ]

  accepted_iff :
      (decision_id : ℕ) (s : Store) (o : Option Candidate)
      → ((decided_of now decision_id r s o).0.allow ≡ true)
        ↔ ((c : Candidate) × (o ≡ some c) × Passes now r c s.probes × (holds_all s c ≡ true))
  accepted_iff decision_id s none = (λ h. cc, λ (c, e, p, a). cc)
  accepted_iff decision_id s (some c) = (
    λ h. let (p, a) = (passed_iff decision_id s c).0 h in (c, refl, p, a),
    λ (d, e, p, a).
        let same : d ≡ c = cc in
        (passed_iff decision_id s c).1
          (subst (λ x. Passes now r x s.probes × (holds_all s x ≡ true)) same (p, a)),
  )

  pub authorize-principal :
      (decision_id : ℕ) (s : Store) {c : Candidate}
      → candidate now r s ≡ some c
      → (authorize_managed_service_token now decision_id r s).0.principal_id
        ≡ some c.token.credential_id
  unfolding authorize_managed_service_token
  authorize-principal decision_id s {c} e =
      rw e (elim (Result-cases (token_checks now r c s.probes)) [
        | inr (f, k) ↦ rw k refl
        | inl (done, k) ↦ elim (Bool-cases (holds_all s c)) [
          | inl a ↦ rw (k, a) refl
          | inr a ↦ rw (k, a) refl
        ]
      ])

  pub authorize-service :
      (decision_id : ℕ) (s : Store) {c : Candidate}
      → candidate now r s ≡ some c
      → (authorize_managed_service_token now decision_id r s).0.service_id
        ≡ some c.token.managed_service_id
  unfolding authorize_managed_service_token
  authorize-service decision_id s {c} e =
      rw e (elim (Result-cases (token_checks now r c s.probes)) [
        | inr (f, k) ↦ rw k refl
        | inl (done, k) ↦ elim (Bool-cases (holds_all s c)) [
          | inl a ↦ rw (k, a) refl
          | inr a ↦ rw (k, a) refl
        ]
      ])

  -- A token is accepted just where a row of it, in force, is joined to a credential and a service with which it
  -- passes, and where the credential holds every scope that is required now.
  pub authorize_token_iff :
      (decision_id : ℕ) (s : Store)
      → ((authorize_managed_service_token now decision_id r s).0.allow ≡ true) ↔ (
          (c : Candidate) × (candidate now r s ≡ some c)
          × Passes now r c s.probes
          × (holds_all s c ≡ true))
  unfolding authorize_managed_service_token
  authorize_token_iff decision_id s = accepted_iff decision_id s (candidate now r s)
