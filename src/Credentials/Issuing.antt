-- ===== src/Credentials/Issuing.antt =====
-- What an issue of a token has read and written (apps/server/src/domain/auth.ts).
use kajovo_cml.Prelude.{
  ℕ, Bool, true, some, List, [], ◌∷◌, ◌≡◌, sym, ap, find, ok, guard, guard_iff, ◌>>=◌, ◌>>◌, ok_inj,
  or_fail, or_fail-ok, >>=-eq-ok, >>_iff,
}
use kajovo_cml.Credentials.Store.{
  CredentialRow, ServiceRow, Store, credential_of, service_of, invalid_client, invalid_resource,
  stale_authorization_snapshot,
}
use kajovo_cml.Credentials.Access.{
  assert_managed_service_runtime_available, current_managed_service_scopes,
}
use kajovo_cml.Credentials.Authorize.{revision_of, validation_state_of}
use kajovo_cml.Credentials.Issue.{
  OpaqueSecret, IssueRequest, TokenAnswer, answer_of, has_public_id, has_resource,
  is_fresh_snapshot, issued, insert_token, insert_for, issue_with_scopes, issue_for, issue_to,
  issue_access_token,
}

module _ (now : ℕ) (r : IssueRequest) (secret : OpaqueSecret) (s : Store) where
  -- The rows behind the insert, and what has come of it.
  pub record Insertion (credential : CredentialRow) (service : ServiceRow) (scopes : List (List ℕ))
      (answer : TokenAnswer) (t : Store) : Type 0 where
    pub kc : CredentialRow
    pub ms : ServiceRow
    pub owner : credential_of credential.id s ≡ some kc
    pub row : service_of service.id s ≡ some ms
    pub fits : is_fresh_snapshot now s credential service scopes kc ms ≡ true
    pub names : answer.scope ≡ scopes
    pub result : t ≡ issued now r secret scopes credential service kc ms s

  issue_with_scopes-Insertion :
      (credential : CredentialRow) (service : ServiceRow) (scopes : List (List ℕ))
      {answer : TokenAnswer} {t : Store}
      → issue_with_scopes now r secret s credential service scopes ≡ ok (answer, t)
      → Insertion credential service scopes answer t
  unfolding issue_with_scopes
  issue_with_scopes-Insertion credential service [] h = cc
  issue_with_scopes-Insertion credential service (scope ∷ scopes) {answer} {t} h =
      let all_scopes = scope ∷ scopes in
      let (kc, e, k) =
        >>=-eq-ok (or_fail (credential_of credential.id s) stale_authorization_snapshot)
          (insert_for now r secret s credential service all_scopes) h in
      let (ms, e', k') =
        >>=-eq-ok (or_fail (service_of service.id s) stale_authorization_snapshot)
          (insert_token now r secret s credential service all_scopes kc) k in
      let (fits, end) =
        (>>_iff _
            (ok (
              answer_of secret all_scopes,
              issued now r secret all_scopes credential service kc ms s,
            ))
            (answer, t)).0
          k' in
      record {
        kc = kc;
        ms = ms;
        owner = or_fail-ok _ _ e;
        row = or_fail-ok _ _ e';
        fits = (guard_iff _ _).0 fits;
        names = ap (λ p. p.0.scope) (sym (ok_inj end));
        result = ap (λ p. p.1) (sym (ok_inj end));
      }

  pub record Issuance (answer : TokenAnswer) (t : Store) : Type 0 where
    pub credential : CredentialRow
    pub service : ServiceRow
    pub place : find (has_resource r.resource) s.services ≡ some service
    pub available :
        assert_managed_service_runtime_available now service
          (validation_state_of (revision_of s service))
        ≡ ok tt
    pub insertion :
        Insertion credential service
          (current_managed_service_scopes now s credential.id service.id)
          answer
          t

  pub issue-Issuance :
      (verify : ℕ → List ℕ → Bool) {answer : TokenAnswer} {t : Store}
      → issue_access_token verify now r secret s ≡ ok (answer, t)
      → Issuance answer t
  unfolding issue_access_token issue_to issue_for
  issue-Issuance verify {answer} {t} h =
      let (credential, e, k) =
        >>=-eq-ok (or_fail (find (has_public_id r.client_id) s.credentials) invalid_client)
          (issue_to verify now r secret s) h in
      let found = or_fail (find (has_resource r.resource) s.services) invalid_resource in
      let rest = found >>= issue_for now r secret s credential in
      let (e1, k1) =
        (>>_iff _ (guard (verify credential.secret_hash r.client_secret) invalid_client >> rest)
            (answer, t)).0
          k in
      let (e2, k2) = (>>_iff _ rest (answer, t)).0 k1 in
      let (service, e3, k3) = >>=-eq-ok found (issue_for now r secret s credential) k2 in
      let scopes = current_managed_service_scopes now s credential.id service.id in
      let (e4, k4) =
        (>>_iff
            (assert_managed_service_runtime_available now service
              (validation_state_of (revision_of s service)))
            (issue_with_scopes now r secret s credential service scopes) (answer, t)).0
          k3 in
      record {
        credential = credential;
        service = service;
        place = or_fail-ok _ _ e3;
        available = e4;
        insertion = issue_with_scopes-Insertion credential service scopes k4;
      }
