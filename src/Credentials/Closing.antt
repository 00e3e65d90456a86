-- ===== src/Credentials/Closing.antt =====
-- A credential that has been revoked or deleted stays so, and none of its tokens is accepted again
-- (apps/server/src/domain/auth.ts and managed-service.ts).
use kajovo_cml.Prelude.{
  ℕ, Bool, true, false, not, ◌&&◌, ◌==◌, nat_eq, Option, none, some, is_some, List, [], ◌∷◌, ◌++◌,
  ◌≡◌, ◌≢◌, refl, subst, sym, ap, ◌∙◌, inl, inr, Bool-cases, Option-cases, find, update_where,
  find-update_where, find-passes, guard, or_fail-ok, some_inj, option_map, Result, ok, err, ◌>>=◌,
  ◌>>◌, or_fail, ok_inj, >>=-eq-ok, >>_iff, if◌then◌else◌,
}
use kajovo_cml.WedosDns.Names.{trim}
use kajovo_cml.Credentials.Store.{
  CredentialRow, Store, Refusal, not_found, credential_immutable, has_credential_id, credential_of,
}
use kajovo_cml.Credentials.Authorize.{TokenRequest, Candidate, candidate}
use kajovo_cml.Credentials.Decision.{decided, authorize_managed_service_token}
use kajovo_cml.Credentials.Issue.{OpaqueSecret, IssueRequest, TokenAnswer, issue_access_token}
use kajovo_cml.Credentials.Issuing.{issue-Issuance}
use kajovo_cml.Credentials.Manage.{
  NewCredential, create_kaja_credential, closed, closed_store, close_row, log_closed,
  update_credential_lifecycle, close_kaja_credential, is_usable, relabeled, renamed, rename_row,
  rename_kaja_credential,
}
use kajovo_cml.Credentials.Permissions.{
  PermissionInput, Wanted, replace_services, touched_service_ids, normalized_inputs,
}
use kajovo_cml.Credentials.Replace.{
  finished, replace_wanted, replace_of, bump_managed_service_permission_epoch,
  replace_managed_service_permissions,
}
use kajovo_cml.Credentials.Withdrawing.{replace_services-apart}
use kajovo_cml.Credentials.Passing.{
  holds_all, Rows, authorize-principal, authorize_token_iff, candidate-Rows,
}

-- The row is there, and not active.
pub IsClosed : ℕ → Store → Type 0
IsClosed id s = (c : CredentialRow) × (credential_of id s ≡ some c) × (c.active ≡ false)

-- A row that is not active is one that is not active, under the same identifier.
abbrev Keeps : (CredentialRow → CredentialRow) → Type 0
Keeps f = (c : CredentialRow) → (f c).id ≡ c.id × (c.active ≡ false → (f c).active ≡ false)

update-IsClosed :
    (id : ℕ) (q : CredentialRow → Bool) (f : CredentialRow → CredentialRow) (s t : Store)
    → Keeps f
    → t.credentials ≡ update_where q f s.credentials
    → IsClosed id s
    → IsClosed id t
unfolding IsClosed credential_of
update-IsClosed id q f s t keeps e (c, there, inactive) = (
  if q c then f c else c,
  rw e (
      find-update_where (has_credential_id id) q f (λ x. ap (λ k. k == id) (keeps x).0)
        s.credentials
      ∙ ap (option_map λ x. if q x then f x else x) there),
  elim (Bool-cases (q c)) [ inl h ↦ rw h ((keeps c).1 inactive) | inr h ↦ rw h inactive ],
)

same-IsClosed :
    (id : ℕ) (s t : Store) → t.credentials ≡ s.credentials → IsClosed id s → IsClosed id t
unfolding IsClosed credential_of
same-IsClosed id s t e (c, there, inactive) = (c, rw e there, inactive)

find-append :
    {A : Type 0} (p : A → Bool) (xs ys : List A) {x : A}
    → find p xs ≡ some x
    → find p (xs ++ ys) ≡ some x
find-append p [] ys h = cc
find-append p (y ∷ xs) ys {x} h = elim (Bool-cases (p y)) [
  | inl e ↦ rw e (subst (λ b. (if b then some y else find p xs) ≡ some x) e h)
  | inr e ↦ rw e (find-append p xs ys (subst (λ b. (if b then some y else find p xs) ≡ some x) e h))
]

-- The credentials are as they were.
abbrev KeepsRows : Store → Store → Type 0
KeepsRows s t = t.credentials ≡ s.credentials

bump-KeepsRows :
    (now : ℕ) (fresh : ℕ → ℕ) (ids : List ℕ) (correlation_id : ℕ) (s : Store)
    → KeepsRows s (bump_managed_service_permission_epoch now fresh ids correlation_id s)
unfolding bump_managed_service_permission_epoch
bump-KeepsRows now fresh [] correlation_id s = refl
bump-KeepsRows now fresh (id ∷ ids) correlation_id s = refl

replace_wanted-KeepsRows :
    (now : ℕ) (fresh : ℕ → ℕ) (actor_id correlation_id : ℕ) (permissions : List PermissionInput)
    (s : Store) (credential : CredentialRow) (wanted : Wanted) (t : Store)
    → replace_wanted now fresh actor_id correlation_id permissions s credential wanted ≡ ok t
    → KeepsRows s t
unfolding replace_wanted
replace_wanted-KeepsRows now fresh actor_id correlation_id permissions s credential wanted t h =
    let ids = touched_service_ids s credential.id wanted in
    let end = finished now fresh actor_id correlation_id credential s wanted ids in
    let replaced = replace_services now credential.id wanted ids s in
    let (fits, e) = (>>_iff _ (replaced >>= λ u. ok (end u)) t).0 h in
    let (u, e', k) = >>=-eq-ok replaced (λ u. ok (end u)) e in
    ap (λ v. v.credentials) (sym (ok_inj k))
    ∙ bump-KeepsRows now fresh ids correlation_id u
    ∙ ap (λ v. v.credentials) (replace_services-apart now credential.id wanted ids s u e')

replace-KeepsRows :
    (now : ℕ) (fresh : ℕ → ℕ) (actor_id correlation_id credential_id : ℕ)
    (permissions : List PermissionInput) (s t : Store)
    → replace_managed_service_permissions now fresh actor_id correlation_id credential_id
        permissions s
      ≡ ok t
    → KeepsRows s t
unfolding replace_managed_service_permissions
replace-KeepsRows now fresh actor_id correlation_id credential_id permissions s t h =
    let (credential, e, k) =
      >>=-eq-ok (or_fail (find (is_usable credential_id) s.credentials) not_found)
        (replace_of now fresh actor_id correlation_id permissions s) h in
    let (wanted, e', k') =
      >>=-eq-ok (normalized_inputs permissions (λ id. none))
        (replace_wanted now fresh actor_id correlation_id permissions s credential) k in
    replace_wanted-KeepsRows now fresh actor_id correlation_id permissions s credential wanted t k'

decided-KeepsRows :
    (now decision_id : ℕ) (r : TokenRequest) (c : Candidate) (s : Store)
    (m : Result Refusal (Unit {0}))
    → KeepsRows s (decided now decision_id r c s m).1
decided-KeepsRows now decision_id r c s (err e) = refl
decided-KeepsRows now decision_id r c s (ok done) = elim (Bool-cases (holds_all now r s c)) [
  | inl e ↦ rw e refl
  | inr e ↦ rw e refl
]

authorize-KeepsRows :
    (now decision_id : ℕ) (r : TokenRequest) (s : Store)
    → KeepsRows s (authorize_managed_service_token now decision_id r s).1
unfolding authorize_managed_service_token
authorize-KeepsRows now decision_id r s = elim (Option-cases (candidate now r s)) [
  | inl e ↦ rw e refl
  | inr (c, e) ↦ rw e (decided-KeepsRows now decision_id r c s _)
]

closed-Keeps : (now fresh : ℕ) (deleted : Bool) → Keeps (closed now deleted fresh)
closed-Keeps now fresh deleted c = (refl, λ e. refl)

closed-rows :
    (now fresh actor_id correlation_id id : ℕ) (deleted : Bool) (s t : Store)
    → close_kaja_credential now fresh actor_id correlation_id id deleted s ≡ ok t
    → (t.credentials ≡ update_where (has_credential_id id) (closed now deleted fresh) s.credentials)
      × (c : CredentialRow) × (credential_of id s ≡ some c)
unfolding close_kaja_credential update_credential_lifecycle
closed-rows now fresh actor_id correlation_id id deleted s t h =
    let ((row, u), e, k) =
      >>=-eq-ok (update_credential_lifecycle now fresh id deleted s)
        (log_closed actor_id correlation_id id deleted) h in
    let (c, there, e') =
      >>=-eq-ok (or_fail (credential_of id s) not_found) (close_row now fresh id deleted s) e in
    let (undeleted, e'') = (>>_iff _ (ok (c, closed_store now fresh id deleted s)) (row, u)).0 e' in
    (
      ap (λ v. v.credentials) (sym (ok_inj k)) ∙ ap (λ p. p.1.credentials) (sym (ok_inj e'')),
      c,
      or_fail-ok _ _ there,
    )

-- What closes a credential leaves it closed.
pub close-IsClosed :
    (now fresh actor_id correlation_id id : ℕ) (deleted : Bool) (s t : Store)
    → close_kaja_credential now fresh actor_id correlation_id id deleted s ≡ ok t
    → IsClosed id t
unfolding IsClosed credential_of
close-IsClosed now fresh actor_id correlation_id id deleted s t h =
    let (e, c, there) = closed-rows now fresh actor_id correlation_id id deleted s t h in
    let is_it : has_credential_id id c ≡ true =
      find-passes (has_credential_id id) s.credentials there in
    (
      closed now deleted fresh c,
      ap (find (has_credential_id id)) e
          ∙ find-update_where (has_credential_id id) (has_credential_id id)
              (closed now deleted fresh) (λ x. refl) s.credentials
          ∙ ap (option_map λ x. if has_credential_id id x then closed now deleted fresh x else x)
              there
          ∙ ap (λ b. some (if b then closed now deleted fresh c else c)) is_it,
      refl,
    )

-- What is done to another credential, or to it, leaves a closed one closed.
pub close-keeps :
    (now fresh actor_id correlation_id id : ℕ) (deleted : Bool) (closed_id : ℕ) (s t : Store)
    → close_kaja_credential now fresh actor_id correlation_id id deleted s ≡ ok t
    → IsClosed closed_id s
    → IsClosed closed_id t
close-keeps now fresh actor_id correlation_id id deleted closed_id s t h was =
    update-IsClosed closed_id (has_credential_id id) (closed now deleted fresh) s t
      (closed-Keeps now fresh deleted)
      (closed-rows now fresh actor_id correlation_id id deleted s t h).0 was

pub rename-keeps :
    (actor_id correlation_id id : ℕ) (label : List ℕ) (closed_id : ℕ) (s t : Store)
    → rename_kaja_credential actor_id correlation_id id label s ≡ ok t
    → IsClosed closed_id s
    → IsClosed closed_id t
unfolding rename_kaja_credential
rename-keeps actor_id correlation_id id label closed_id s t h was =
    let row = rename_row actor_id correlation_id id (trim label) s in
    let (e1, h1) = (>>_iff _ (or_fail (credential_of id s) not_found >>= row) t).0 h in
    let (current, e2, h2) = >>=-eq-ok (or_fail (credential_of id s) not_found) row h1 in
    let end = renamed actor_id correlation_id id (trim label) current s in
    let (e3, h3) =
      (>>_iff _
          (guard (current.active && not (is_some current.revoked_at)) credential_immutable
            >> ok end)
          t).0
        h2 in
    let (e4, h4) = (>>_iff _ (ok end) t).0 h3 in
    update-IsClosed closed_id (is_usable id) (relabeled (trim label)) s t (λ c. (refl, λ e. e))
      (ap (λ v. v.credentials) (sym (ok_inj h4))) was

pub create-keeps :
    (actor_id correlation_id : ℕ) (new : NewCredential) (label : List ℕ) (expires_at : Option ℕ)
    (closed_id : ℕ) (s : Store)
    → IsClosed closed_id s
    → IsClosed closed_id (create_kaja_credential actor_id correlation_id new label expires_at s)
unfolding create_kaja_credential IsClosed credential_of
create-keeps actor_id correlation_id new label expires_at closed_id s (c, there, inactive) =
    (c, find-append (has_credential_id closed_id) s.credentials _ there, inactive)

-- No token of a closed credential is accepted.
pub closed-refused :
    (now decision_id : ℕ) (r : TokenRequest) (id : ℕ) (s : Store)
    → IsClosed id s
    → (authorize_managed_service_token now decision_id r s).0.allow ≡ true
    → (authorize_managed_service_token now decision_id r s).0.principal_id ≢ some id
unfolding authorize_managed_service_token IsClosed
closed-refused now decision_id r id s (c, there, inactive) h same =
    let (d, e, p, a) = (authorize_token_iff now r decision_id s).0 h in
    let (found, owner, service, revision) = subst (Rows now r s) e (candidate-Rows now r s) in
    let who : d.token.credential_id ≡ id =
      some_inj (sym (authorize-principal now r decision_id s e) ∙ same) in
    let same_row : d.credential ≡ c =
      some_inj (sym owner ∙ ap (λ k. credential_of k s) who ∙ there) in
    cc (p.usable, ap (λ x. x.active) same_row, inactive)

pub authorize-keeps :
    (now decision_id : ℕ) (r : TokenRequest) (id : ℕ) (s : Store)
    → IsClosed id s
    → IsClosed id (authorize_managed_service_token now decision_id r s).1
authorize-keeps now decision_id r id s =
    same-IsClosed id s _ (authorize-KeepsRows now decision_id r s)

pub replace-keeps :
    (now : ℕ) (fresh : ℕ → ℕ) (actor_id correlation_id credential_id : ℕ)
    (permissions : List PermissionInput) (id : ℕ) (s t : Store)
    → replace_managed_service_permissions now fresh actor_id correlation_id credential_id
        permissions s
      ≡ ok t
    → IsClosed id s
    → IsClosed id t
replace-keeps now fresh actor_id correlation_id credential_id permissions id s t h =
    same-IsClosed id s t
      (replace-KeepsRows now fresh actor_id correlation_id credential_id permissions s t h)

pub issue-keeps :
    (verify : ℕ → List ℕ → Bool) (now : ℕ) (r : IssueRequest) (secret : OpaqueSecret) (id : ℕ)
    (s : Store) {answer : TokenAnswer} {t : Store}
    → issue_access_token verify now r secret s ≡ ok (answer, t)
    → IsClosed id s
    → IsClosed id t
issue-keeps verify now r secret id s {answer} {t} h =
    same-IsClosed id s t
      (ap (λ v. v.credentials) (issue-Issuance now r secret s verify h).insertion.result)
