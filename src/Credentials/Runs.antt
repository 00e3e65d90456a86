-- ===== src/Credentials/Runs.antt =====
-- Sequences of operations on credentials (apps/server/src/domain/auth.ts and managed-service.ts).
use kajovo_cml.Prelude.{
  ℕ, Bool, true, Option, some, List, [], ◌∷◌, ◌≡◌, ◌≢◌, refl, Result, ok, err, after,
}
use kajovo_cml.Credentials.Store.{Store, Refusal}
use kajovo_cml.Credentials.Authorize.{TokenRequest}
use kajovo_cml.Credentials.Decision.{authorize_managed_service_token}
use kajovo_cml.Credentials.Issue.{OpaqueSecret, IssueRequest, TokenAnswer, issue_access_token}
use kajovo_cml.Credentials.Manage.{
  NewCredential, create_kaja_credential, close_kaja_credential, rename_kaja_credential,
}
use kajovo_cml.Credentials.Permissions.{PermissionInput}
use kajovo_cml.Credentials.Replace.{replace_managed_service_permissions}
use kajovo_cml.Credentials.Closing.{
  IsClosed, create-keeps, close-IsClosed, close-keeps, rename-keeps, replace-keeps, issue-keeps,
  authorize-keeps, closed-refused,
}

-- A call of an exported function; `revoke_or_delete` deletes where `deleted` is true.
pub data Request : Type 0 where
  create :
      (actor_id correlation_id : ℕ) (new : NewCredential) (label : List ℕ) (expires_at : Option ℕ)
      → Request
  revoke_or_delete : (now fresh actor_id correlation_id id : ℕ) (deleted : Bool) → Request
  rename : (actor_id correlation_id id : ℕ) (label : List ℕ) → Request
  replace :
      (now : ℕ) (fresh : ℕ → ℕ) (actor_id correlation_id id : ℕ)
      (permissions : List PermissionInput)
      → Request
  issue : (now : ℕ) (r : IssueRequest) (secret : OpaqueSecret) → Request
  authorize : (now decision_id : ℕ) (r : TokenRequest) → Request

abbrev stored : Store → Result Refusal (TokenAnswer × Store) → Store
stored s (ok (answer, t)) = t
stored s (err e) = s

-- `verify` is `verifyPasswordLikeSecret`.
module _ (verify : ℕ → List ℕ → Bool) where
  unfoldable pub handled : Request → Store → Store
  unfolding create_kaja_credential close_kaja_credential rename_kaja_credential
      replace_managed_service_permissions issue_access_token authorize_managed_service_token
  handled (create actor_id correlation_id new label expires_at) s =
      create_kaja_credential actor_id correlation_id new label expires_at s
  handled (revoke_or_delete now fresh actor_id correlation_id id deleted) s =
      after s (close_kaja_credential now fresh actor_id correlation_id id deleted s)
  handled (rename actor_id correlation_id id label) s =
      after s (rename_kaja_credential actor_id correlation_id id label s)
  handled (replace now fresh actor_id correlation_id id permissions) s =
      after s
        (replace_managed_service_permissions now fresh actor_id correlation_id id permissions s)
  handled (issue now r secret) s = stored s (issue_access_token verify now r secret s)
  handled (authorize now decision_id r) s = (authorize_managed_service_token now decision_id r s).1

  unfoldable pub handle_all : List Request → Store → Store
  unfolding handled
  handle_all [] s = s
  handle_all (r ∷ requests) s = handle_all requests (handled r s)

  after-IsClosed :
      (id : ℕ) (s : Store) (m : Result Refusal Store)
      → IsClosed id s
      → ((t : Store) → m ≡ ok t → IsClosed id t)
      → IsClosed id (after s m)
  after-IsClosed id s (ok t) was h = h t refl
  after-IsClosed id s (err e) was h = was

  stored-IsClosed :
      (id : ℕ) (s : Store) (m : Result Refusal (TokenAnswer × Store))
      → IsClosed id s
      → ((answer : TokenAnswer) (t : Store) → m ≡ ok (answer, t) → IsClosed id t)
      → IsClosed id (stored s m)
  stored-IsClosed id s (ok (answer, t)) was h = h answer t refl
  stored-IsClosed id s (err e) was h = was

  handled-IsClosed : (r : Request) (id : ℕ) (s : Store) → IsClosed id s → IsClosed id (handled r s)
  unfolding handled
  handled-IsClosed (create actor_id correlation_id new label expires_at) id s was =
      create-keeps actor_id correlation_id new label expires_at id s was
  handled-IsClosed (revoke_or_delete now fresh actor_id correlation_id k deleted) id s was =
      after-IsClosed id s _ was
        λ t h. close-keeps now fresh actor_id correlation_id k deleted id s t h was
  handled-IsClosed (rename actor_id correlation_id k label) id s was =
      after-IsClosed id s _ was λ t h. rename-keeps actor_id correlation_id k label id s t h was
  handled-IsClosed (replace now fresh actor_id correlation_id k permissions) id s was =
      after-IsClosed id s _ was
        λ t h. replace-keeps now fresh actor_id correlation_id k permissions id s t h was
  handled-IsClosed (issue now r secret) id s was =
      stored-IsClosed id s _ was λ answer t h. issue-keeps verify now r secret id s h was
  handled-IsClosed (authorize now decision_id r) id s was =
      authorize-keeps now decision_id r id s was

  handle_all-IsClosed :
      (requests : List Request) (id : ℕ) (s : Store)
      → IsClosed id s
      → IsClosed id (handle_all requests s)
  unfolding handle_all
  handle_all-IsClosed [] id s was = was
  handle_all-IsClosed (r ∷ requests) id s was =
      handle_all-IsClosed requests id (handled r s) (handled-IsClosed r id s was)

  -- Once a credential has been revoked or deleted, no bearer token of it is accepted again, whatever
  -- sequence of creations, revocations, deletions, renamings, replacements of permissions, issues of
  -- tokens and authorizations follows, at whatever moment and for whatever service.
  pub closed_for_good :
      (now fresh actor_id correlation_id id : ℕ) (deleted : Bool) (s t : Store)
      → close_kaja_credential now fresh actor_id correlation_id id deleted s ≡ ok t
      → (requests : List Request) (later decision_id : ℕ) (r : TokenRequest)
      → (authorize_managed_service_token later decision_id r (handle_all requests t)).0.allow ≡ true
      → (authorize_managed_service_token later decision_id r (handle_all requests t)).0.principal_id
        ≢ some id
  closed_for_good now fresh actor_id correlation_id id deleted s t h requests later decision_id r =
      closed-refused later decision_id r id (handle_all requests t) (
        handle_all-IsClosed requests id t
          (close-IsClosed now fresh actor_id correlation_id id deleted s t h))
