-- ===== src/Credentials/Permissions.antt =====
-- The permissions that are asked for and those that are held, and their rows
-- (`replaceManagedServicePermissions` of apps/server/src/domain/auth.ts).
use kajovo_cml.Prelude.{
  ℕ, ◌+◌, Bool, true, false, not, ◌&&◌, ◌||◌, ◌==◌, nat_eq, text_eq, Option, none, some, is_some,
  or_else, List, [], ◌∷◌, any, filter, map, option_map, ltb, length, if◌then◌else◌, Result, ok,
  guard, ◌>>=◌, ◌>>◌,
}
use kajovo_cml.WedosDns.Names.{trim}
use kajovo_cml.Credentials.Store.{
  ServiceRow, ScopeRow, PermissionRow, Store, Refusal, duplicate_managed_service_permission,
  invalid_scope, since,
}
use kajovo_cml.Credentials.Access.{scope_names_of}

-- `<` on texts, by code units.
unfoldable pub text_ltb : List ℕ → List ℕ → Bool
text_ltb xs [] = false
text_ltb [] (y ∷ ys) = true
text_ltb (x ∷ xs) (y ∷ ys) = ltb x y || ((x == y) && text_ltb xs ys)

-- A text put in its place in a sorted list, where it is not there yet.
unfoldable pub insert_name : List ℕ → List (List ℕ) → List (List ℕ)
unfolding text_ltb
insert_name x [] = x ∷ []
insert_name x (y ∷ ys) =
    let rest = insert_name x ys in
    if x == y then y ∷ ys else if text_ltb x y then x ∷ y ∷ ys else y ∷ rest

unfoldable pub normalize_scope_names : List (List ℕ) → List (List ℕ)
unfolding trim insert_name
normalize_scope_names [] = []
normalize_scope_names (x ∷ xs) =
    let rest = normalize_scope_names xs in if trim x == [] then rest else insert_name (trim x) rest

abbrev pub same_string_set : List (List ℕ) → List (List ℕ) → Bool
same_string_set [] [] = true
same_string_set [] (y ∷ ys) = false
same_string_set (x ∷ xs) [] = false
same_string_set (x ∷ xs) (y ∷ ys) = x == y && same_string_set xs ys

pub record PermissionInput : Type 0 where
  pub managed_service_id : ℕ
  pub scope_names : List (List ℕ)

-- A map from services to scopes, `none` where it has no key.
abbrev pub Wanted : Type 0
Wanted = ℕ → Option (List (List ℕ))

abbrev pub agrees : Option (List (List ℕ)) → List (List ℕ) → Bool
agrees none scopes = true
agrees (some existing) scopes = same_string_set existing scopes

unfoldable pub normalized_inputs : List PermissionInput → Wanted → Result Refusal Wanted
unfolding normalize_scope_names
normalized_inputs [] wanted = ok wanted
normalized_inputs (p ∷ permissions) wanted =
    let scopes = normalize_scope_names p.scope_names in
    guard (agrees (wanted p.managed_service_id) scopes) duplicate_managed_service_permission
    >> normalized_inputs permissions
        λ id. if id == p.managed_service_id then some scopes else wanted id

-- What the credential holds, whether or not its time has come.
abbrev is_held : Store → ℕ → ℕ → ScopeRow → Bool
is_held s credential_id service_id scope =
    (scope.managed_service_id == service_id)
    && not (is_some scope.revoked_at)
    && elim (s.permissions credential_id service_id scope.id) [
      | none ↦ false
      | some p ↦ not (is_some p.revoked_at) && p.granted
    ]

unfoldable pub previous_scopes : Store → ℕ → ℕ → List (List ℕ)
unfolding normalize_scope_names
previous_scopes s credential_id service_id =
    normalize_scope_names (scope_names_of (filter (is_held s credential_id service_id) s.scopes))

abbrev pub is_empty : List (List ℕ) → Bool
is_empty [] = true
is_empty (x ∷ xs) = false

-- `previous.get(id) ?? []` and `normalized.get(id) ?? []`.
abbrev pub requested_of : Wanted → ℕ → List (List ℕ)
requested_of wanted id = or_else (wanted id) []

abbrev pub is_touched : Store → ℕ → Wanted → ServiceRow → Bool
is_touched s credential_id wanted service =
    is_some (wanted service.id) || not (is_empty (previous_scopes s credential_id service.id))

-- The identifiers of the touched services: a permission's service is in the table.
unfoldable pub touched_service_ids : Store → ℕ → Wanted → List ℕ
unfolding previous_scopes
touched_service_ids s credential_id wanted =
    map (λ (service : ServiceRow). service.id)
      (filter (is_touched s credential_id wanted) s.services)

abbrev pub is_requested : ℕ → List (List ℕ) → ScopeRow → Bool
is_requested service_id names scope =
    (scope.managed_service_id == service_id)
    && any (λ (x : List ℕ). x == scope.scope_name) names
    && not (is_some scope.revoked_at)

abbrev pub renewed : ℕ → PermissionRow → PermissionRow
renewed now p = if is_some p.revoked_at then p else record p {
  revoked_at = some now;
  granted = false;
  valid_to = since now p.valid_to;
  permission_version = p.permission_version + 1;
}

abbrev pub granted_row : ℕ → Option PermissionRow → PermissionRow
granted_row now existing = record {
  granted = true;
  revoked_at = none;
  valid_from = now;
  valid_to = none;
  permission_version = elim existing [ none ↦ 0 | some p ↦ p.permission_version + 1 ];
}

abbrev pub set_permission : ℕ → ℕ → ℕ → PermissionRow → Store → Store
set_permission credential_id service_id scope_id row s = record s {
  permissions = λ c v x.
      if (c == credential_id) && (v == service_id) && (x == scope_id)
      then some row
      else s.permissions c v x;
}

-- The update that withdraws what the credential holds of a service.
abbrev pub withdraw_service : ℕ → ℕ → ℕ → Store → Store
withdraw_service now credential_id service_id s = record s {
  permissions = λ c v x.
      if (c == credential_id) && (v == service_id)
      then option_map (renewed now) (s.permissions c v x)
      else s.permissions c v x;
}

-- The inserts, `on conflict … do update`.
unfoldable pub grant_all : ℕ → ℕ → ℕ → List ScopeRow → Store → Store
grant_all now credential_id service_id [] s = s
grant_all now credential_id service_id (scope ∷ scopes) s =
    grant_all now credential_id service_id scopes (
      set_permission credential_id service_id scope.id
        (granted_row now (s.permissions credential_id service_id scope.id)) s)

-- The body of the loop over the touched services.
unfoldable pub replace_service : ℕ → ℕ → Wanted → ℕ → Store → Result Refusal Store
unfolding grant_all
replace_service now credential_id wanted service_id s =
    let requested = requested_of wanted service_id in
    let scopes = filter (is_requested service_id requested) s.scopes in
    guard (is_empty requested || (length scopes == length requested)) invalid_scope
    >> ok (
        grant_all now credential_id service_id scopes
          (withdraw_service now credential_id service_id s))

unfoldable pub replace_services : ℕ → ℕ → Wanted → List ℕ → Store → Result Refusal Store
unfolding replace_service
replace_services now credential_id wanted [] s = ok s
replace_services now credential_id wanted (id ∷ ids) s =
    replace_service now credential_id wanted id s >>= replace_services now credential_id wanted ids
