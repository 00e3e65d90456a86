-- ===== src/Credentials/Replace.antt =====
-- The transaction of `replaceManagedServicePermissions` (apps/server/src/domain/auth.ts), with
-- `bumpManagedServicePermissionEpoch` of managed-service.ts.
use kajovo_cml.Prelude.{
  ℕ, Bool, not, ◌&&◌, ◌==◌, nat_eq, text_eq, none, some, is_some, List, [], ◌∷◌, ◌++◌, any, all,
  find, update_where, if◌then◌else◌, Result, ok, guard, ◌>>=◌, ◌>>◌, or_fail,
}
use kajovo_cml.Security.Redact.{Json, Items, null, num, text, arr, nil, cons, object}
use kajovo_cml.Security.Redact
use kajovo_cml.Audit.{uuid, append_audit}
use kajovo_cml.Credentials.Store.{
  CredentialRow, ServiceRow, PolicyEvent, Store, Refusal, not_found, invalid_managed_service,
  has_service_id,
}
use kajovo_cml.Credentials.Issue.{texts}
use kajovo_cml.Credentials.Manage.{is_usable}
use kajovo_cml.Credentials.Permissions.{
  same_string_set, PermissionInput, Wanted, normalized_inputs, previous_scopes, is_empty,
  requested_of, touched_service_ids, replace_services,
}

abbrev pub is_among : List ℕ → ℕ → Bool
is_among ids id = any (λ k. k == id) ids

abbrev bump_events : ℕ → List ℕ → List PolicyEvent
bump_events correlation_id [] = []
bump_events correlation_id (id ∷ ids) =
    record {
      managed_service_id = id;
      event_type = "permission_epoch.bumped";
      correlation_id = correlation_id;
    }
    ∷ bump_events correlation_id ids

abbrev pub bumped : ℕ → (ℕ → ℕ) → ServiceRow → ServiceRow
bumped now fresh service = record service {
  permission_epoch = fresh service.id;
  last_policy_invalidation_at = some now;
}

-- `fresh` are the uuids that the database draws for the rows.
unfoldable pub bump_managed_service_permission_epoch : ℕ → (ℕ → ℕ) → List ℕ → ℕ → Store → Store
bump_managed_service_permission_epoch now fresh [] correlation_id s = s
bump_managed_service_permission_epoch now fresh (id ∷ ids) correlation_id s = record s {
  services =
      update_where (λ (service : ServiceRow). is_among (id ∷ ids) service.id) (bumped now fresh)
        s.services;
  policy_events = bump_events correlation_id (id ∷ ids) ++ s.policy_events;
}

-- A list of the audit event's `diff`: the entries of the services that the test picks.
abbrev picked :
    (List (List ℕ) → List (List ℕ) → Bool) → (ℕ → Json) → Store → ℕ → Wanted → List ℕ → Items
picked test entry s credential_id wanted [] = nil
picked test entry s credential_id wanted (id ∷ ids) =
    let rest = picked test entry s credential_id wanted ids in
    if test (previous_scopes s credential_id id) (requested_of wanted id)
    then cons (entry id) rest
    else rest

abbrev named : List (List ℕ) → Json
named names = arr (texts names)

abbrev difference : Store → ℕ → Wanted → List ℕ → Json
difference s credential_id wanted ids =
    let after = λ (id : ℕ). object (
      ("managedServiceId", Redact.uuid id) ∷ ("scopeNames", named (requested_of wanted id)) ∷ []) in
    object (
      (
        "added",
        arr (picked (λ b a. is_empty b && not (is_empty a)) after s credential_id wanted ids),
      )
      ∷ (
        "changed",
        arr (
            picked
              (λ b a.
                not (is_empty b && not (is_empty a))
                && not (not (is_empty b) && is_empty a)
                && not (same_string_set b a))
              (λ id. object (
                ("managedServiceId", Redact.uuid id)
                ∷ ("before", named (previous_scopes s credential_id id))
                ∷ ("after", named (requested_of wanted id))
                ∷ []))
              s credential_id wanted ids),
      )
      ∷ ("unchanged", arr (picked (λ b a. same_string_set b a) after s credential_id wanted ids))
      ∷ (
        "removed",
        arr (
            picked (λ b a. not (is_empty b) && is_empty a)
              (λ id. object (
                ("managedServiceId", Redact.uuid id)
                ∷ ("scopeNames", named (previous_scopes s credential_id id))
                ∷ []))
              s credential_id wanted ids),
      )
      ∷ [])

abbrev has_service : List ServiceRow → ℕ → Bool
has_service services id = is_some (find (has_service_id id) services)

abbrev updated_event : ℕ → ℕ → ℕ → ℕ → Json → Store → Store
updated_event actor_id correlation_id credential_id public_id diff s = record s {
  events = append_audit s.events (record {
    event_type = "kaja.managed_service_permissions.updated";
    actor_type = "admin";
    actor_id = some (uuid actor_id);
    object_type = some "kaja_credential";
    object_id = some (uuid credential_id);
    before = null;
    after = object (("publicId", num public_id) ∷ ("diff", diff) ∷ []);
    correlation_id = correlation_id;
  });
}

abbrev pub finished : ℕ → (ℕ → ℕ) → ℕ → ℕ → CredentialRow → Store → Wanted → List ℕ → Store → Store
finished now fresh actor_id correlation_id credential s wanted ids replaced =
    updated_event actor_id correlation_id credential.id credential.public_id
      (difference s credential.id wanted ids)
      (bump_managed_service_permission_epoch now fresh ids correlation_id replaced)

-- The part behind the reading of the arguments.
unfoldable pub replace_wanted :
    ℕ
    → (ℕ → ℕ)
    → ℕ
    → ℕ
    → List PermissionInput
    → Store
    → CredentialRow
    → Wanted
    → Result Refusal Store
unfolding touched_service_ids replace_services bump_managed_service_permission_epoch
replace_wanted now fresh actor_id correlation_id permissions s credential wanted =
    let ids = touched_service_ids s credential.id wanted in
    guard (all (λ (p : PermissionInput). has_service s.services p.managed_service_id) permissions)
      invalid_managed_service
    >> (replace_services now credential.id wanted ids s >>= λ replaced.
        ok (finished now fresh actor_id correlation_id credential s wanted ids replaced))

abbrev pub replace_of :
    ℕ → (ℕ → ℕ) → ℕ → ℕ → List PermissionInput → Store → CredentialRow → Result Refusal Store
replace_of now fresh actor_id correlation_id permissions s credential =
    normalized_inputs permissions (λ id. none)
    >>= replace_wanted now fresh actor_id correlation_id permissions s credential

unfoldable pub replace_managed_service_permissions :
    ℕ → (ℕ → ℕ) → ℕ → ℕ → ℕ → List PermissionInput → Store → Result Refusal Store
unfolding normalized_inputs replace_wanted
replace_managed_service_permissions now fresh actor_id correlation_id credential_id permissions s =
    or_fail (find (is_usable credential_id) s.credentials) not_found
    >>= replace_of now fresh actor_id correlation_id permissions s
