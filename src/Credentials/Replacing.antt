-- ===== src/Credentials/Replacing.antt =====
-- A replacement of permissions leaves just what has been asked for (apps/server/src/domain/auth.ts).
use kajovo_cml.Prelude.{
  ℕ, Bool, true, false, not, ◌&&◌, ◌||◌, ◌==◌, nat_eq, nat_beq_iff, text_eq, Option, none, some,
  is_some, List, [], ◌∷◌, ◌≡◌, refl, subst, sym, ap, ◌∙◌, ◌⊎◌, inl, inr, Bool-cases, Option-cases,
  any, find, find-passes, filter, filter-same, filter-AreKeyed, All-map, AreKeyed, has_key_of,
  option_map, ok, ◌>>=◌, ok_inj, or_fail, or_fail-ok, >>=-eq-ok, >>_iff, le→leb, arith,
}
use kajovo_cml.Credentials.Store.{
  CredentialRow, ScopeRow, PermissionRow, Store, not_found, is_current,
}
use kajovo_cml.Credentials.Access.{scope_names_of, is_granted, current_managed_service_scopes}
use kajovo_cml.Credentials.Manage.{is_usable}
use kajovo_cml.Credentials.Permissions.{
  PermissionInput, Wanted, normalized_inputs, requested_of, touched_service_ids, is_requested,
  renewed, granted_row, set_permission, withdraw_service, grant_all, replace_service,
  replace_services,
}
use kajovo_cml.Credentials.Replace.{
  is_among, finished, bump_managed_service_permission_epoch, replace_wanted, replace_of,
  replace_managed_service_permissions,
}
use kajovo_cml.Credentials.Withdrawing.{
  replace_service-eq, replace_service-apart, replace_services-apart,
}

abbrev scope_key : ScopeRow → ℕ
scope_key scope = scope.id

withdrawn-current :
    (now : ℕ) (o : Option PermissionRow) → is_current now (option_map (renewed now) o) ≡ false
withdrawn-current now none = refl
withdrawn-current now (some p) = elim (Option-cases p.revoked_at) [
  | inl e ↦ rw e refl
  | inr (t, e) ↦ rw e refl
]

or_swap : (a b c : Bool) → (b || (a || c)) ≡ ((a || b) || c)
or_swap true true c = refl
or_swap true false c = refl
or_swap false b c = refl

or_false : (b : Bool) → (b || false) ≡ b
or_false true = refl
or_false false = refl

beq_flip : (a b : ℕ) → (a == b) ≡ false → (b == a) ≡ false
beq_flip a b h = elim (Bool-cases (b == a)) [
  | inl e ↦ cc (h, (nat_beq_iff a b).1 (sym ((nat_beq_iff b a).0 e)))
  | inr e ↦ e
]

-- A scope counts where a scope that was asked for bears its identifier.
twice : (a b c : Bool) → (a && c && (a && b && c)) ≡ (a && b && c)
twice true true true = refl
twice true true false = refl
twice true false true = refl
twice true false false = refl
twice false b c = refl

module _ (now credential_id : ℕ) where
  -- Whether the permission for a scope of a service counts.
  abbrev counts : ℕ → ℕ → Store → Bool
  counts id scope_id s = is_current now (s.permissions credential_id id scope_id)

  grant-counts :
      (id scope_id : ℕ) (scope : ScopeRow) (s : Store)
      → counts id scope_id (
          set_permission credential_id id scope.id
            (granted_row now (s.permissions credential_id id scope.id))
            s)
        ≡ ((scope_id == scope.id) || counts id scope_id s)
  grant-counts id scope_id scope s =
      rw ((nat_beq_iff credential_id credential_id).1 refl, (nat_beq_iff id id).1 refl)
        (elim (Bool-cases (scope_id == scope.id)) [
          | inl e ↦ rw (e, le→leb now now (omega arith)) refl
          | inr e ↦ rw e refl
        ])

  grant_all-counts :
      (id scope_id : ℕ) (scopes : List ScopeRow) (s : Store)
      → counts id scope_id (grant_all now credential_id id scopes s)
        ≡ (any (λ (y : ScopeRow). scope_id == y.id) scopes || counts id scope_id s)
  unfolding grant_all
  grant_all-counts id scope_id [] s = refl
  grant_all-counts id scope_id (scope ∷ scopes) s =
      grant_all-counts id scope_id scopes _
      ∙ ap (λ b. any (λ (y : ScopeRow). scope_id == y.id) scopes || b)
          (grant-counts id scope_id scope s)
      ∙ or_swap (scope_id == scope.id) (any (λ (y : ScopeRow). scope_id == y.id) scopes) _

  grant_all-other :
      (id other scope_id : ℕ) (scopes : List ScopeRow) (s : Store)
      → (other == id) ≡ false
      → counts other scope_id (grant_all now credential_id id scopes s) ≡ counts other scope_id s
  unfolding grant_all
  grant_all-other id other scope_id [] s apart_ids = refl
  grant_all-other id other scope_id (scope ∷ scopes) s apart_ids =
      grant_all-other id other scope_id scopes _ apart_ids
      ∙ rw ((nat_beq_iff credential_id credential_id).1 refl, apart_ids) refl

  -- The permissions for a service that count are those for the scopes asked for.
  AsAsked : ℕ → Wanted → List ScopeRow → Store → Type 0
  AsAsked id wanted scopes t =
      (scope_id : ℕ)
      → counts id scope_id t
        ≡ any (λ (y : ScopeRow). scope_id == y.id)
            (filter (is_requested id (requested_of wanted id)) scopes)

  replace_service-AsAsked :
      (wanted : Wanted) (id : ℕ) (s t : Store)
      → replace_service now credential_id wanted id s ≡ ok t
      → AsAsked id wanted s.scopes t
  unfolding AsAsked
  replace_service-AsAsked wanted id s t h scope_id =
      let scopes = filter (is_requested id (requested_of wanted id)) s.scopes in
      let gone : counts id scope_id (withdraw_service now credential_id id s) ≡ false =
        rw ((nat_beq_iff credential_id credential_id).1 refl, (nat_beq_iff id id).1 refl)
          (withdrawn-current now (s.permissions credential_id id scope_id)) in
      ap (counts id scope_id) (replace_service-eq now credential_id wanted id s t h)
      ∙ grant_all-counts id scope_id scopes (withdraw_service now credential_id id s)
      ∙ ap (λ b. any (λ (y : ScopeRow). scope_id == y.id) scopes || b) gone
      ∙ or_false (any (λ (y : ScopeRow). scope_id == y.id) scopes)

  replace_service-other :
      (wanted : Wanted) (id other scope_id : ℕ) (s t : Store)
      → replace_service now credential_id wanted id s ≡ ok t
      → (other == id) ≡ false
      → counts other scope_id t ≡ counts other scope_id s
  replace_service-other wanted id other scope_id s t h apart_ids =
      ap (counts other scope_id) (replace_service-eq now credential_id wanted id s t h)
      ∙ grant_all-other id other scope_id
          (filter (is_requested id (requested_of wanted id)) s.scopes) _ apart_ids
      ∙ rw ((nat_beq_iff credential_id credential_id).1 refl, apart_ids) refl

  replace_services-AsAsked :
      (wanted : Wanted) (ids : List ℕ) (id : ℕ) (s t : Store)
      → ((is_among ids id ≡ true) ⊎ AsAsked id wanted s.scopes s)
      → replace_services now credential_id wanted ids s ≡ ok t
      → AsAsked id wanted s.scopes t
  unfolding replace_services AsAsked
  replace_services-AsAsked wanted [] id s t (inl among) h = cc
  replace_services-AsAsked wanted [] id s t (inr asked) h =
      subst (AsAsked id wanted s.scopes) (ok_inj h) asked
  replace_services-AsAsked wanted (k ∷ ids) id s t before h =
      let (u, e, rest) =
        >>=-eq-ok (replace_service now credential_id wanted k s)
          (replace_services now credential_id wanted ids) h in
      let same : u.scopes ≡ s.scopes =
        ap (λ v. v.scopes) (replace_service-apart now credential_id wanted k s u e) in
      subst (λ xs. AsAsked id wanted xs t) same
        (replace_services-AsAsked wanted ids id u t (between u e same before) rest)
    where
      between :
          (u : Store)
          → replace_service now credential_id wanted k s ≡ ok u
          → u.scopes ≡ s.scopes
          → ((is_among (k ∷ ids) id ≡ true) ⊎ AsAsked id wanted s.scopes s)
          → (is_among ids id ≡ true) ⊎ AsAsked id wanted u.scopes u
      between u e same before = elim (Bool-cases (k == id)) [
        | inl it ↦ inr (
            subst (λ xs. AsAsked id wanted xs u) (sym same)
              (subst (λ i. AsAsked i wanted s.scopes u) ((nat_beq_iff k id).0 it)
                (replace_service-AsAsked wanted k s u e)))
        | inr not_it ↦ elim before [
          | inl among ↦ inl (ground arith)
          | inr asked ↦ inr (
              subst (λ xs. AsAsked id wanted xs u) (sym same)
                λ scope_id.
                  replace_service-other wanted k id scope_id s u e (beq_flip k id not_it)
                  ∙ asked scope_id)
        ]
      ]

  asked-current :
      (wanted : Wanted) (id : ℕ) (scopes : List ScopeRow) (t : Store)
      → AreKeyed scope_key scopes
      → t.scopes ≡ scopes
      → AsAsked id wanted scopes t
      → current_managed_service_scopes now t credential_id id
        ≡ scope_names_of (filter (is_requested id (requested_of wanted id)) scopes)
  unfolding current_managed_service_scopes AsAsked
  asked-current wanted id scopes t keys same asked =
      let asked_for = is_requested id (requested_of wanted id) in
      ap (λ xs. scope_names_of (filter (is_granted now t credential_id id) xs)) same
      ∙ ap scope_names_of (
          filter-same (is_granted now t credential_id id) asked_for scopes (
            All-map (λ x. any (has_key_of scope_key x) (filter asked_for scopes) ≡ asked_for x) _
              (λ x found.
                ap (λ b. (x.managed_service_id == id) && not (is_some x.revoked_at) && b)
                  (asked x.id ∙ found)
                ∙ twice (x.managed_service_id == id)
                    (any (λ (y : List ℕ). y == x.scope_name) (requested_of wanted id))
                    (not (is_some x.revoked_at)))
              scopes (filter-AreKeyed scope_key asked_for scopes keys)))

bump-aside :
    (now : ℕ) (fresh : ℕ → ℕ) (ids : List ℕ) (correlation_id : ℕ) (s : Store)
    → ((bump_managed_service_permission_epoch now fresh ids correlation_id s).permissions
        ≡ s.permissions)
      × ((bump_managed_service_permission_epoch now fresh ids correlation_id s).scopes ≡ s.scopes)
unfolding bump_managed_service_permission_epoch
bump-aside now fresh [] correlation_id s = (refl, refl)
bump-aside now fresh (id ∷ ids) correlation_id s = (refl, refl)

replaced-AsAsked :
    (now : ℕ) (fresh : ℕ → ℕ) (actor_id correlation_id : ℕ) (permissions : List PermissionInput)
    (s : Store) (credential : CredentialRow) (wanted : Wanted) (id : ℕ) (t : Store)
    → replace_wanted now fresh actor_id correlation_id permissions s credential wanted ≡ ok t
    → is_among (touched_service_ids s credential.id wanted) id ≡ true
    → (t.scopes ≡ s.scopes) × AsAsked now credential.id id wanted s.scopes t
unfolding replace_wanted AsAsked
replaced-AsAsked now fresh actor_id correlation_id permissions s credential wanted id t h among =
    let ids = touched_service_ids s credential.id wanted in
    let end = finished now fresh actor_id correlation_id credential s wanted ids in
    let replaced = replace_services now credential.id wanted ids s in
    let (fits, e) = (>>_iff _ (replaced >>= λ u. ok (end u)) t).0 h in
    let (u, e', k) = >>=-eq-ok replaced (λ u. ok (end u)) e in
    let (held, listed) = bump-aside now fresh ids correlation_id u in
    (
      ap (λ v. v.scopes) (sym (ok_inj k))
          ∙ listed
          ∙ ap (λ v. v.scopes) (replace_services-apart now credential.id wanted ids s u e'),
      λ scope_id.
          ap (λ v. counts now credential.id id scope_id v) (sym (ok_inj k))
          ∙ ap (λ f. is_current now (f credential.id id scope_id)) held
          ∙ replace_services-AsAsked now credential.id wanted ids id s u (inl among) e' scope_id,
    )

-- Once a replacement of the permissions of a credential has gone through, the scopes that the credential
-- holds of a service that the replacement has touched are just those of its scopes that are asked for and
-- not revoked: what it held besides is gone, and nothing asked for is left out. The identifiers of
-- scopes are a key.
pub replace_grants_asked :
    (now : ℕ) (fresh : ℕ → ℕ) (actor_id correlation_id credential_id : ℕ)
    (permissions : List PermissionInput) (wanted : Wanted) (s t : Store)
    → replace_managed_service_permissions now fresh actor_id correlation_id credential_id
        permissions s
      ≡ ok t
    → AreKeyed (λ (scope : ScopeRow). scope.id) s.scopes
    → normalized_inputs permissions (λ id. none) ≡ ok wanted
    → (id : ℕ) → is_among (touched_service_ids s credential_id wanted) id ≡ true
    → current_managed_service_scopes now t credential_id id
      ≡ scope_names_of (filter (is_requested id (requested_of wanted id)) s.scopes)
unfolding replace_managed_service_permissions
replace_grants_asked now fresh actor_id correlation_id credential_id permissions wanted s t h keys
      read id among =
    let (credential, e, k) =
      >>=-eq-ok (or_fail (find (is_usable credential_id) s.credentials) not_found)
        (replace_of now fresh actor_id correlation_id permissions s) h in
    let (wanted', e', k') =
      >>=-eq-ok (normalized_inputs permissions (λ id. none))
        (replace_wanted now fresh actor_id correlation_id permissions s credential) k in
    let usable : is_usable credential_id credential ≡ true =
      find-passes (is_usable credential_id) s.credentials (or_fail-ok _ _ e) in
    let its_id : credential.id ≡ credential_id =
      (nat_beq_iff credential.id credential_id).0 (ground arith) in
    let (listed, asked) =
      replaced-AsAsked now fresh actor_id correlation_id permissions s credential wanted id t
        (subst
          (λ w. replace_wanted now fresh actor_id correlation_id permissions s credential w ≡ ok t)
          (ok_inj (sym e' ∙ read)) k')
        (subst (λ c. is_among (touched_service_ids s c wanted) id ≡ true) (sym its_id) among) in
    asked-current now credential_id wanted id s.scopes t keys listed
      (subst (λ c. AsAsked now c id wanted s.scopes t) its_id asked)
