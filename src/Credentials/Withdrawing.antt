-- ===== src/Credentials/Withdrawing.antt =====
-- A replacement of permissions makes the tokens issued before it worthless
-- (apps/server/src/domain/auth.ts and managed-service.ts).
use kajovo_cml.Prelude.{
  arith, ℕ, true, false, nat_eq, nat_beq_iff, none, some, List, [], ◌∷◌, ◌≡◌, ◌≢◌, refl, subst, sym,
  ap, ◌∙◌, inl, inr, Bool-cases, Option-cases, find, find-All, filter, All, update_where,
  find-update_where, find-passes, option_map, ok, ◌>>=◌, ok_inj, some_inj, or_fail, or_fail-ok,
  >>=-eq-ok, >>_iff, if◌then◌else◌,
}
use kajovo_cml.Credentials.Store.{
  CredentialRow, ServiceRow, ScopeRow, TokenRow, Store, not_found, has_service_id, service_of,
}
use kajovo_cml.Credentials.Authorize.{TokenRequest, is_wanted}
use kajovo_cml.Credentials.Decision.{authorize_managed_service_token}
use kajovo_cml.Credentials.Manage.{is_usable}
use kajovo_cml.Credentials.Permissions.{
  PermissionInput, Wanted, is_requested, requested_of, withdraw_service, grant_all, replace_service,
  replace_services, touched_service_ids, normalized_inputs,
}
use kajovo_cml.Credentials.Replace.{
  is_among, finished, bumped, replace_wanted, replace_of, bump_managed_service_permission_epoch,
  replace_managed_service_permissions,
}
use kajovo_cml.Credentials.Passing.{Rows, candidate-Rows, authorize-service, authorize_token_iff}

-- A store but for its permissions.
abbrev pub apart : Store → Store
apart s = record s { permissions = λ credential_id service_id scope_id. none }

grant_all-apart :
    (now credential_id service_id : ℕ) (scopes : List ScopeRow) (s : Store)
    → apart (grant_all now credential_id service_id scopes s) ≡ apart s
unfolding grant_all
grant_all-apart now credential_id service_id [] s = refl
grant_all-apart now credential_id service_id (scope ∷ scopes) s =
    grant_all-apart now credential_id service_id scopes _

pub replace_service-eq :
    (now credential_id : ℕ) (wanted : Wanted) (id : ℕ) (s t : Store)
    → replace_service now credential_id wanted id s ≡ ok t
    → t
      ≡ grant_all now credential_id id
          (filter (is_requested id (requested_of wanted id)) s.scopes)
          (withdraw_service now credential_id id s)
unfolding replace_service
replace_service-eq now credential_id wanted id s t h =
    let scopes = filter (is_requested id (requested_of wanted id)) s.scopes in
    let u = withdraw_service now credential_id id s in
    let (fits, e) = (>>_iff _ (ok (grant_all now credential_id id scopes u)) t).0 h in
    sym (ok_inj e)

pub replace_service-apart :
    (now credential_id : ℕ) (wanted : Wanted) (id : ℕ) (s t : Store)
    → replace_service now credential_id wanted id s ≡ ok t
    → apart t ≡ apart s
replace_service-apart now credential_id wanted id s t h =
    ap apart (replace_service-eq now credential_id wanted id s t h)
    ∙ grant_all-apart now credential_id id
        (filter (is_requested id (requested_of wanted id)) s.scopes)
        (withdraw_service now credential_id id s)

pub replace_services-apart :
    (now credential_id : ℕ) (wanted : Wanted) (ids : List ℕ) (s t : Store)
    → replace_services now credential_id wanted ids s ≡ ok t
    → apart t ≡ apart s
unfolding replace_services
replace_services-apart now credential_id wanted [] s t h = ap apart (sym (ok_inj h))
replace_services-apart now credential_id wanted (id ∷ ids) s t h =
    let (u, e, k) =
      >>=-eq-ok (replace_service now credential_id wanted id s)
        (replace_services now credential_id wanted ids) h in
    replace_services-apart now credential_id wanted ids u t k
    ∙ replace_service-apart now credential_id wanted id s u e

bump-tokens :
    (now : ℕ) (fresh : ℕ → ℕ) (ids : List ℕ) (correlation_id : ℕ) (s : Store)
    → (bump_managed_service_permission_epoch now fresh ids correlation_id s).tokens ≡ s.tokens
unfolding bump_managed_service_permission_epoch
bump-tokens now fresh [] correlation_id s = refl
bump-tokens now fresh (id ∷ ids) correlation_id s = refl

bump-services :
    (now : ℕ) (fresh : ℕ → ℕ) (ids : List ℕ) (correlation_id id : ℕ) (s : Store)
    → is_among ids id ≡ true
    → (bump_managed_service_permission_epoch now fresh ids correlation_id s).services
      ≡ update_where (λ (v : ServiceRow). is_among ids v.id) (bumped now fresh) s.services
unfolding bump_managed_service_permission_epoch
bump-services now fresh [] correlation_id id s h = cc
bump-services now fresh (k ∷ ids) correlation_id id s h = refl

-- What a replacement that has gone through leaves of the tokens and the services.
replaced-rows :
    (now : ℕ) (fresh : ℕ → ℕ) (actor_id correlation_id : ℕ) (permissions : List PermissionInput)
    (s : Store) (credential : CredentialRow) (wanted : Wanted) (id : ℕ) (t : Store)
    → replace_wanted now fresh actor_id correlation_id permissions s credential wanted ≡ ok t
    → is_among (touched_service_ids s credential.id wanted) id ≡ true
    → (t.tokens ≡ s.tokens)
      × (t.services
          ≡ update_where
              (λ (v : ServiceRow). is_among (touched_service_ids s credential.id wanted) v.id)
              (bumped now fresh)
              s.services)
unfolding replace_wanted
replaced-rows now fresh actor_id correlation_id permissions s credential wanted id t h among =
    let ids = touched_service_ids s credential.id wanted in
    let end = finished now fresh actor_id correlation_id credential s wanted ids in
    let replaced = replace_services now credential.id wanted ids s in
    let (fits, e) = (>>_iff _ (replaced >>= λ u. ok (end u)) t).0 h in
    let (u, e', k) = >>=-eq-ok replaced (λ u. ok (end u)) e in
    let same = replace_services-apart now credential.id wanted ids s u e' in
    (
      ap (λ v. v.tokens) (sym (ok_inj k))
          ∙ bump-tokens now fresh ids correlation_id u
          ∙ ap (λ v. v.tokens) same,
      ap (λ v. v.services) (sym (ok_inj k))
          ∙ bump-services now fresh ids correlation_id id u among
          ∙ ap
              (λ v.
                update_where (λ (x : ServiceRow). is_among ids x.id) (bumped now fresh) v.services)
              same,
    )

-- The epochs drawn are none that a token of the table has been issued under.
abbrev pub AreFresh : (ℕ → ℕ) → Store → Type 0
AreFresh fresh s =
    All (λ (k : TokenRow). k.permission_epoch_snapshot ≢ fresh k.managed_service_id) s.tokens

bumped-epoch :
    (now : ℕ) (fresh : ℕ → ℕ) (ids : List ℕ) (id : ℕ) (s t : Store)
    → t.services
      ≡ update_where (λ (v : ServiceRow). is_among ids v.id) (bumped now fresh) s.services
    → is_among ids id ≡ true
    → {v : ServiceRow} → service_of id t ≡ some v
    → v.permission_epoch ≡ fresh id
unfolding service_of
bumped-epoch now fresh ids id s t e among {v} h =
    elim (Option-cases (find (has_service_id id) s.services)) [
      | inl f ↦ cc (sym moved ∙ h, ap (option_map one) f)
      | inr (x, f) ↦ at x f
    ]
  where
    one : ServiceRow → ServiceRow
    one x = if is_among ids x.id then bumped now fresh x else x

    moved :
        find (has_service_id id) t.services ≡ option_map one (find (has_service_id id) s.services)
    moved =
        ap (find (has_service_id id)) e
        ∙ find-update_where (has_service_id id) (λ (x : ServiceRow). is_among ids x.id)
            (bumped now fresh) (λ x. refl) s.services

    at :
        (x : ServiceRow)
        → find (has_service_id id) s.services ≡ some x
        → v.permission_epoch ≡ fresh id
    at x f =
        let same : x.id ≡ id =
          (nat_beq_iff x.id id).0 (find-passes (has_service_id id) s.services f) in
        let became : one x ≡ v = some_inj (sym (ap (option_map one) f) ∙ sym moved ∙ h) in
        ap (λ (y : ServiceRow). y.permission_epoch) (sym became)
        ∙ ap (λ b. (if b then bumped now fresh x else x).permission_epoch)
            (ap (is_among ids) same ∙ among)
        ∙ ap fresh same

-- Once a replacement of the permissions of a credential has gone through, with epochs under which no token
-- of the table has been issued, no bearer token that the table holds then is accepted for a service that
-- the replacement has touched, at whatever moment: one that is named in it or in which the credential
-- held a scope before.
pub replace_withdraws_tokens :
    (now : ℕ) (fresh : ℕ → ℕ) (actor_id correlation_id credential_id : ℕ)
    (permissions : List PermissionInput) (wanted : Wanted) (s t : Store)
    → replace_managed_service_permissions now fresh actor_id correlation_id credential_id
        permissions s
      ≡ ok t
    → AreFresh fresh s
    → normalized_inputs permissions (λ id. none) ≡ ok wanted
    → (id : ℕ) → is_among (touched_service_ids s credential_id wanted) id ≡ true
    → (later decision_id : ℕ) (r : TokenRequest)
    → (authorize_managed_service_token later decision_id r t).0.service_id ≡ some id
    → (authorize_managed_service_token later decision_id r t).0.allow ≡ false
unfolding replace_managed_service_permissions
replace_withdraws_tokens now fresh actor_id correlation_id credential_id permissions wanted s t h
      unused read id among later decision_id r same =
    elim (Bool-cases (authorize_managed_service_token later decision_id r t).0.allow) [
      | inr refused ↦ refused
      | inl allowed ↦ absurd (contradiction allowed)
    ]
  where
    contradiction : (authorize_managed_service_token later decision_id r t).0.allow ≢ true
    contradiction allowed =
        let (credential, e, k) =
          >>=-eq-ok (or_fail (find (is_usable credential_id) s.credentials) not_found)
            (replace_of now fresh actor_id correlation_id permissions s) h in
        let (wanted', e', k') =
          >>=-eq-ok (normalized_inputs permissions (λ id. none))
            (replace_wanted now fresh actor_id correlation_id permissions s credential) k in
        let usable : is_usable credential_id credential ≡ true =
          find-passes (is_usable credential_id) s.credentials (or_fail-ok _ _ e) in
        let its_id : credential.id ≡ credential_id =
          (nat_beq_iff credential.id credential_id).0 (ground arith) in
        let the_same : wanted' ≡ wanted = ok_inj (sym e' ∙ read) in
        let (tokens, services) =
          replaced-rows now fresh actor_id correlation_id permissions s credential wanted id t
            (subst
              (λ w.
                replace_wanted now fresh actor_id correlation_id permissions s credential w ≡ ok t)
              the_same k')
            (subst (λ c. is_among (touched_service_ids s c wanted) id ≡ true) (sym its_id) among) in
        let (c, found, p, a) = (authorize_token_iff later r decision_id t).0 allowed in
        let (token, owner, service, revision) =
          subst (Rows later r t) found (candidate-Rows later r t) in
        let here : c.token.managed_service_id ≡ id =
          some_inj (sym (authorize-service later r decision_id t found) ∙ same) in
        find-All (λ (x : TokenRow). x.permission_epoch_snapshot ≢ fresh x.managed_service_id)
          (is_wanted later r) s.tokens
          (subst (λ xs. find (is_wanted later r) xs ≡ some c.token) tokens token) unused
          (p.permission_epoch
            ∙ bumped-epoch now fresh (touched_service_ids s credential.id wanted) id s t services
                (subst (λ c. is_among (touched_service_ids s c wanted) id ≡ true) (sym its_id)
                  among)
                (subst (λ x. service_of x t ≡ some c.service) here service)
            ∙ ap fresh (sym here))
