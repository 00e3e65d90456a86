-- ===== src/Credentials/Conditions.antt =====
-- Just when a bearer token is accepted (`authorizeManagedServiceToken` of
-- apps/server/src/domain/managed-service.ts), said of the rows.
use kajovo_cml.Prelude.{
  ℕ, ◌<◌, Bool, true, ◌==◌, nat_eq, nat_beq_iff, string_eq, none, some, List, [], ◌∷◌, find, All,
  AreKeyed, ◌≡◌, refl, sym, ap, subst, ◌∙◌, ◌↔◌, inl, inr, Bool-cases, ltb→lt, lt→ltb, some_inj,
}
use kajovo_cml.Credentials.Store.{
  Store, CredentialRow, ServiceRow, RevisionRow, TokenRow, credential_of, service_of,
}
use kajovo_cml.Credentials.Authorize.{TokenRequest}
use kajovo_cml.Credentials.Holding.{and_iff, none_iff, Until, Until-iff, Holds, all_held}
use kajovo_cml.Credentials.Available.{IsAvailable, IsAvailable-iff, some_iff}
use kajovo_cml.Credentials.Authorize.{
  Candidate, candidate, is_wanted, joined, joined_of, revision_of,
}
use kajovo_cml.Credentials.Decision.{authorize_managed_service_token}
use kajovo_cml.Credentials.Passing.{Passes, holds_all, Rows, candidate-Rows, authorize_token_iff}
use kajovo_cml.Prelude.{find-passes, keyed-found}
use kajovo_cml.Credentials.Vouching.{KindAllows, KindAllows-iff}

-- What the rows of a token, its credential and its service have to be.
pub record IsAccepted (now : ℕ) (r : TokenRequest) (s : Store) (token : TokenRow)
    (credential : CredentialRow) (service : ServiceRow) : Type 0 where
  pub row : find (λ (t : TokenRow). t.lookup_digest == r.token_digest) s.tokens ≡ some token
  pub audience : token.audience ≡ r.audience
  pub unexpired : now < token.expires_at
  pub kept : token.revoked_at ≡ none
  pub owner :
      find (λ (c : CredentialRow). c.id == token.credential_id) s.credentials ≡ some credential
  pub place : find (λ (v : ServiceRow). v.id == token.managed_service_id) s.services ≡ some service
  pub token_environment : token.environment ≡ r.environment
  pub service_environment : service.environment ≡ r.environment
  pub credential_active : credential.active ≡ true
  pub credential_kept : credential.revoked_at ≡ none
  pub credential_there : credential.deleted_at ≡ none
  pub credential_unexpired : Until now credential.expires_at
  pub principal_epoch : token.principal_token_epoch ≡ credential.principal_token_epoch
  pub service_epoch : token.service_token_epoch ≡ service.service_token_epoch
  pub permission_epoch : token.permission_epoch_snapshot ≡ service.permission_epoch
  pub revision_epoch : token.active_revision_epoch_snapshot ≡ service.active_revision_epoch
  pub revision : ℕ
  pub active_revision : service.active_revision_id ≡ some revision
  pub available : IsAvailable now service (find (λ (v : RevisionRow). v.id == revision) s.revisions)
  pub kind :
      KindAllows now r service (find (λ (v : RevisionRow). v.id == revision) s.revisions) s.probes
  pub scopes : All (Holds now s token.credential_id token.managed_service_id) r.required_scopes

find-narrower :
    (p q : TokenRow → Bool) (xs : List TokenRow) {x : TokenRow}
    → ((y : TokenRow) → p y ≡ true → q y ≡ true)
    → find q xs ≡ some x
    → p x ≡ true
    → find p xs ≡ some x
find-narrower p q [] narrow h k = cc
find-narrower p q (y ∷ xs) {x} narrow h k = elim (Bool-cases (q y)) [
  | inl e ↦
      let same : y ≡ x = some_inj (rw e at h) in
      let here : p y ≡ true = subst (λ z. p z ≡ true) (sym same) k in rw here (ap some same)
  | inr e ↦ elim (Bool-cases (p y)) [
    | inl f ↦ cc (narrow y f)
    | inr f ↦ rw f (find-narrower p q xs narrow (rw e at h) k)
  ]
]

module _ (now : ℕ) (r : TokenRequest) (s : Store) where
  wanted_iff :
      (t : TokenRow)
      → (is_wanted now r t ≡ true) ↔ (
          (t.lookup_digest ≡ r.token_digest)
          × (t.audience ≡ r.audience)
          × (now < t.expires_at)
          × (t.revoked_at ≡ none))
  wanted_iff t = (
    λ h.
        let (h2, kept) = (and_iff _ _).0 h in
        let (h1, unexpired) = (and_iff _ _).0 h2 in
        let (digest, audience) = (and_iff (t.lookup_digest == r.token_digest) _).0 h1 in
        (
          (nat_beq_iff _ _).0 digest,
          (string_eq.beq_iff _ _).0 audience,
          ltb→lt now t.expires_at unexpired,
          (none_iff _).0 kept,
        ),
    λ (digest, audience, unexpired, kept). (and_iff _ _).1 (
      (and_iff _ _).1 (
        (and_iff (t.lookup_digest == r.token_digest) _).1
            ((nat_beq_iff _ _).1 digest, (string_eq.beq_iff _ _).1 audience),
        lt→ltb now t.expires_at unexpired,
      ),
      (none_iff _).1 kept,
    ),
  )

  revision_found :
      (service : ServiceRow) {id : ℕ}
      → service.active_revision_id ≡ some id
      → revision_of s service ≡ find (λ (v : RevisionRow). v.id == id) s.revisions
  unfolding revision_of
  revision_found service e = rw e refl

  Passes-IsAccepted :
      (c : Candidate)
      → AreKeyed (λ (t : TokenRow). t.lookup_digest) s.tokens
      → Rows now r s (some c)
      → Passes now r c s.probes
      → holds_all now r s c ≡ true
      → IsAccepted now r s c.token c.credential c.service
  unfolding credential_of service_of
  Passes-IsAccepted c keys (found, owner, place, revised) p held =
      let (digest, audience, unexpired, kept) =
        (wanted_iff c.token).0 (find-passes (is_wanted now r) s.tokens found) in
      let keyed =
        keyed-found (λ (t : TokenRow). t.lookup_digest) (is_wanted now r) s.tokens keys found in
      let (here, there) = (and_iff (c.token.environment == r.environment) _).0 p.environment in
      let (usable, present) = (and_iff _ _).0 p.usable in
      let (in_use, unrevoked) = (and_iff _ _).0 usable in
      let (id, revision) = (some_iff c.service.active_revision_id).0 p.has_revision in
      let same = revised ∙ revision_found c.service revision in
      record {
        row =
            subst (λ d. find (λ (t : TokenRow). t.lookup_digest == d) s.tokens ≡ some c.token)
              digest keyed;
        audience = audience;
        unexpired = unexpired;
        kept = kept;
        owner = owner;
        place = place;
        token_environment = (string_eq.beq_iff _ _).0 here;
        service_environment = (string_eq.beq_iff _ _).0 there;
        credential_active = in_use;
        credential_kept = (none_iff _).0 unrevoked;
        credential_there = (none_iff _).0 present;
        credential_unexpired = (Until-iff now _).0 p.unexpired;
        principal_epoch = p.principal_epoch;
        service_epoch = p.service_epoch;
        permission_epoch = p.permission_epoch;
        revision_epoch = p.revision_epoch;
        revision = id;
        active_revision = revision;
        available =
            subst (IsAvailable now c.service) same
              ((IsAvailable-iff now c.service c.revision).0 p.available);
        kind =
            subst (λ v. KindAllows now r c.service v s.probes) same
              ((KindAllows-iff now r c.service c.revision s.probes c.service.service_kind).0
                p.kind);
        scopes =
            (all_held now s c.token.credential_id c.token.managed_service_id r.required_scopes).0
              held;
      }

  module _ (token : TokenRow) (credential : CredentialRow) (service : ServiceRow)
      (a : IsAccepted now r s token credential service) where
    chosen : Candidate
    chosen = record {
      token = token;
      credential = credential;
      service = service;
      revision = revision_of s service;
    }

    IsAccepted-candidate : candidate now r s ≡ some chosen
    unfolding chosen candidate credential_of service_of
    IsAccepted-candidate =
        let digest = λ (t : TokenRow). t.lookup_digest == r.token_digest in
        let right : token.lookup_digest ≡ r.token_digest =
          (nat_beq_iff _ _).0 (find-passes digest s.tokens a.row) in
        let found : find (is_wanted now r) s.tokens ≡ some token =
          find-narrower (is_wanted now r) digest s.tokens
            (λ y h. (nat_beq_iff _ _).1 ((wanted_iff y).0 h).0) a.row
            ((wanted_iff token).1 (right, a.audience, a.unexpired, a.kept)) in
        ap (joined_of s) found
        ∙ ap (λ x. joined s token x (service_of token.managed_service_id s)) a.owner
        ∙ ap (joined s token (some credential)) a.place

    IsAccepted-Passes : Passes now r chosen s.probes
    unfolding chosen
    IsAccepted-Passes =
        let same = revision_found service a.active_revision in
        record {
          environment = (and_iff (token.environment == r.environment) _).1 (
            (string_eq.beq_iff _ _).1 a.token_environment,
            (string_eq.beq_iff _ _).1 a.service_environment,
          );
          usable = (and_iff _ _).1 (
            (and_iff credential.active _).1 (a.credential_active, (none_iff _).1 a.credential_kept),
            (none_iff _).1 a.credential_there,
          );
          unexpired = (Until-iff now _).1 a.credential_unexpired;
          principal_epoch = a.principal_epoch;
          service_epoch = a.service_epoch;
          permission_epoch = a.permission_epoch;
          revision_epoch = a.revision_epoch;
          has_revision = (some_iff _).1 (a.revision, a.active_revision);
          available =
              (IsAvailable-iff now service _).1
                (subst (IsAvailable now service) (sym same) a.available);
          kind =
              (KindAllows-iff now r service _ s.probes service.service_kind).1
                (subst (λ v. KindAllows now r service v s.probes) (sym same) a.kind);
        }

    IsAccepted-held : holds_all now r s chosen ≡ true
    unfolding chosen
    IsAccepted-held =
        (all_held now s token.credential_id token.managed_service_id r.required_scopes).1 a.scopes

  -- If the digests of the tokens differ, a bearer token is accepted just where the row of its digest is for this
  -- audience, not expired and not revoked, and its credential and service are of this environment, in force
  -- and of the epochs that it was issued under; where the service is switched on, on trial or active,
  -- monitored, set up and reviewed less than 30 days beyond its time; where an external API has
  -- recent passed probes, no recent internal error and the named operation for the call; and where
  -- the credential holds every scope that is asked for.
  pub authorize_token_conditions :
      (decision_id : ℕ)
      → AreKeyed (λ (t : TokenRow). t.lookup_digest) s.tokens
      → ((authorize_managed_service_token now decision_id r s).0.allow ≡ true) ↔ (
          (token : TokenRow) × (credential : CredentialRow) × (service : ServiceRow) × IsAccepted
            now r s token credential service)
  authorize_token_conditions decision_id keys = (
    λ h.
        let (c, found, p, held) = (authorize_token_iff now r decision_id s).0 h in
        let rows = subst (Rows now r s) found (candidate-Rows now r s) in
        (c.token, c.credential, c.service, Passes-IsAccepted c keys rows p held),
    λ (token, credential, service, a). (authorize_token_iff now r decision_id s).1 (
      chosen token credential service a,
      IsAccepted-candidate token credential service a,
      IsAccepted-Passes token credential service a,
      IsAccepted-held token credential service a,
    ),
  )
