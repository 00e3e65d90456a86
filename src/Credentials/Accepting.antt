-- ===== src/Credentials/Accepting.antt =====
-- A token is accepted as it is issued (apps/server/src/domain/auth.ts and managed-service.ts).
use kajovo_cml.Prelude.{
  ℕ, ◌+◌, Bool, true, nat_eq, nat_beq_iff, string_eq, some, List, ◌≡◌, refl, subst, sym, ap, ◌∙◌,
  find, find-passes, AreKeyed, keyed-found, ok, some_inj, if◌then◌else◌, lt→ltb, arith,
}
use kajovo_cml.Credentials.Store.{
  CredentialRow, ServiceRow, Store, mcp, has_credential_id, credential_of, service_of,
}
use kajovo_cml.Credentials.Access.{
  assert_managed_service_runtime_available, current_managed_service_scopes,
}
use kajovo_cml.Credentials.Authorize.{
  TokenRequest, is_wanted, joined, joined_of, candidate, revision_of, validation_state_of,
}
use kajovo_cml.Credentials.Decision.{has_all, authorize_managed_service_token}
use kajovo_cml.Credentials.Issue.{
  OpaqueSecret, IssueRequest, TokenAnswer, has_resource, is_fresh_snapshot, new_token, issued,
  issue_access_token,
}
use kajovo_cml.Credentials.Issuing.{issue-Issuance}
use kajovo_cml.Credentials.Passing.{authorize_token_iff}

keyed-of :
    (p : ServiceRow → Bool) (s : Store) {v : ServiceRow}
    → AreKeyed (λ (v : ServiceRow). v.id) s.services
    → find p s.services ≡ some v
    → service_of v.id s ≡ some v
unfolding service_of
keyed-of p s keys h = keyed-found (λ (v : ServiceRow). v.id) p s.services keys h

module _ (now : ℕ) (r : IssueRequest) (secret : OpaqueSecret) (s : Store) where
  issued-accepted :
      (credential kc : CredentialRow) (service : ServiceRow) (scopes : List (List ℕ))
      (q : TokenRequest) (decision_id : ℕ)
      → is_fresh_snapshot now s credential service scopes kc service ≡ true
      → credential_of kc.id s ≡ some kc
      → service_of service.id s ≡ some service
      → assert_managed_service_runtime_available now service
          (validation_state_of (revision_of s service))
        ≡ ok tt
      → service.service_kind ≡ mcp
      → current_managed_service_scopes now s kc.id service.id ≡ scopes
      → q.token_digest ≡ secret.digest
      → q.audience ≡ r.resource
      → q.environment ≡ service.environment
      → has_all scopes q.required_scopes ≡ true
      → (authorize_managed_service_token now decision_id q
          (issued now r secret scopes credential service kc service s)).0.allow
        ≡ true
  unfolding candidate credential_of service_of current_managed_service_scopes revision_of
  issued-accepted credential kc service scopes q decision_id fits owner place available kind held
        digest audience environment enough =
      let t = issued now r secret scopes credential service kc service s in
      let token = new_token now r secret scopes kc service in
      let wanted : is_wanted now q token ≡ true =
        rw
          (
            (nat_beq_iff secret.digest q.token_digest).1 (sym digest),
            (string_eq.beq_iff r.resource q.audience).1 (sym audience),
            lt→ltb now (now + 900000) (omega arith),
          )
          refl in
      (authorize_token_iff now q decision_id
          (issued now r secret scopes credential service kc service s)).1
        (
          record {
            token = new_token now r secret scopes kc service;
            credential = kc;
            service = service;
            revision = revision_of s service;
          },
          ap (λ b. joined_of t (if b then some token else find (is_wanted now q) s.tokens)) wanted
              ∙ ap (λ x. joined t token x (service_of service.id s)) owner
              ∙ ap (λ x. joined t token (some kc) x) place,
          record {
            environment =
                rw ((string_eq.beq_iff service.environment q.environment).1 (sym environment)) refl;
            usable = ground arith;
            unexpired = ground arith;
            principal_epoch = refl;
            service_epoch = refl;
            permission_epoch = refl;
            revision_epoch = refl;
            has_revision = ground arith;
            available = available;
            kind = rw kind refl;
          },
          rw held enough,
        )

module _ (verify : ℕ → List ℕ → Bool) where
  -- A token that is issued for an MCP service is accepted at once: a request with the digest of its secret, for
  -- its resource and in the environment of the service, is allowed where it requires none but scopes that
  -- the answer names.
  pub issue-authorize :
      (now : ℕ) (r : IssueRequest) (secret : OpaqueSecret) (s t : Store) (answer : TokenAnswer)
      (service : ServiceRow) (q : TokenRequest) (decision_id : ℕ)
      → AreKeyed (λ (v : ServiceRow). v.id) s.services
      → issue_access_token verify now r secret s ≡ ok (answer, t)
      → find (has_resource r.resource) s.services ≡ some service
      → service.service_kind ≡ mcp
      → q.token_digest ≡ secret.digest
      → q.audience ≡ r.resource
      → q.environment ≡ service.environment
      → has_all answer.scope q.required_scopes ≡ true
      → (authorize_managed_service_token now decision_id q t).0.allow ≡ true
  unfolding credential_of
  issue-authorize now r secret s t answer service q decision_id keys h place kind digest audience
        environment enough =
      let i = issue-Issuance now r secret s verify h in
      let same : i.service ≡ service = some_inj (sym i.place ∙ place) in
      let scopes = current_managed_service_scopes now s i.credential.id i.service.id in
      let same' : i.insertion.ms ≡ i.service =
        some_inj (sym i.insertion.row ∙ keyed-of (has_resource r.resource) s keys i.place) in
      let who : i.insertion.kc.id ≡ i.credential.id =
        (nat_beq_iff _ _).0
          (find-passes (has_credential_id i.credential.id) s.credentials i.insertion.owner) in
      subst (λ u. (authorize_managed_service_token now decision_id q u).0.allow ≡ true)
        (sym (
          i.insertion.result
          ∙ ap (λ ms. issued now r secret scopes i.credential i.service i.insertion.kc ms s) same'))
        (issued-accepted now r secret s i.credential i.insertion.kc i.service scopes q decision_id
          (subst
            (λ ms. is_fresh_snapshot now s i.credential i.service scopes i.insertion.kc ms ≡ true)
            same' i.insertion.fits)
          (subst (λ k. credential_of k s ≡ some i.insertion.kc) (sym who) i.insertion.owner)
          (keyed-of (has_resource r.resource) s keys i.place) i.available
          (ap (λ (v : ServiceRow). v.service_kind) same ∙ kind)
          (ap (λ k. current_managed_service_scopes now s k i.service.id) who) digest audience
          (environment ∙ sym (ap (λ (v : ServiceRow). v.environment) same))
          (subst (λ xs. has_all xs q.required_scopes ≡ true) i.insertion.names enough))
