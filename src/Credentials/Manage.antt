-- ===== src/Credentials/Manage.antt =====
-- The administration of credentials (apps/server/src/domain/auth.ts).
use kajovo_cml.Prelude.{
  ℕ, Bool, true, false, not, ◌&&◌, ◌||◌, ◌==◌, nat_eq, text_eq, Option, none, some, is_some, List,
  [], ◌∷◌, ◌++◌, update_where, option_map, ltb, length, if◌then◌else◌, Result, ok, guard, ◌>>=◌,
  ◌>>◌, or_fail,
}
use kajovo_cml.Security.Redact.{null, num, text, object}
use kajovo_cml.Audit.{uuid, append_audit}
use kajovo_cml.WedosDns.Names.{trim}
use kajovo_cml.Credentials.Store.{
  CredentialRow, PermissionRow, TokenRow, LegacyPermissionRow, LegacyTokenRow, Store, Refusal,
  not_found, invalid_label, credential_immutable, since, has_credential_id, credential_of,
}

-- What the database and `issueOpaqueSecret` draw for a new row.
pub record NewCredential : Type 0 where
  pub id : ℕ
  pub number : ℕ
  pub secret_hash : ℕ
  pub fingerprint : ℕ
  pub revocation_epoch : ℕ
  pub principal_token_epoch : ℕ

unfoldable pub create_kaja_credential : ℕ → ℕ → NewCredential → List ℕ → Option ℕ → Store → Store
create_kaja_credential actor_id correlation_id new label expires_at s = record s {
  credentials =
      s.credentials
      ++ record {
        id = new.id;
        public_id = new.number;
        label = label;
        secret_hash = new.secret_hash;
        secret_fingerprint = new.fingerprint;
        active = true;
        revoked_at = none;
        deleted_at = none;
        expires_at = expires_at;
        revocation_epoch = new.revocation_epoch;
        principal_token_epoch = new.principal_token_epoch;
      }
        ∷ [];
  events = append_audit s.events (record {
    event_type = "kaja.created";
    actor_type = "admin";
    actor_id = some (uuid actor_id);
    object_type = some "kaja_credential";
    object_id = some (uuid new.id);
    before = null;
    after = object (
        ("publicId", num new.number)
        ∷ ("label", text label)
        ∷ ("fingerprint", num new.fingerprint)
        ∷ ("expiresAt", elim expires_at [ none ↦ null | some t ↦ num t ])
        ∷ []);
    correlation_id = correlation_id;
  });
}

abbrev pub closed : ℕ → Bool → ℕ → CredentialRow → CredentialRow
closed now deleted fresh c = record c {
  active = false;
  revoked_at = since now c.revoked_at;
  deleted_at = if deleted then since now c.deleted_at else c.deleted_at;
  revocation_epoch = fresh;
}

abbrev pub withdrawn : ℕ → PermissionRow → PermissionRow
withdrawn now p = record p {
  revoked_at = since now p.revoked_at;
  granted = false;
  valid_to = since now p.valid_to;
}

abbrev pub closed_store : ℕ → ℕ → ℕ → Bool → Store → Store
closed_store now fresh id deleted s = record s {
  credentials = update_where (has_credential_id id) (closed now deleted fresh) s.credentials;
  legacy_permissions =
      update_where (λ (p : LegacyPermissionRow). p.credential_id == id)
        (λ (p : LegacyPermissionRow). record p { revoked_at = since now p.revoked_at })
        s.legacy_permissions;
  permissions = λ credential_id service_id scope_id.
      if credential_id == id
      then option_map (withdrawn now) (s.permissions credential_id service_id scope_id)
      else s.permissions credential_id service_id scope_id;
  legacy_tokens =
      update_where (λ (t : LegacyTokenRow). t.credential_id == id)
        (λ (t : LegacyTokenRow). record t { revoked_at = since now t.revoked_at }) s.legacy_tokens;
  tokens =
      update_where (λ (t : TokenRow). t.credential_id == id)
        (λ (t : TokenRow). record t { revoked_at = since now t.revoked_at }) s.tokens;
}

abbrev pub close_row :
    ℕ → ℕ → ℕ → Bool → Store → CredentialRow → Result Refusal (CredentialRow × Store)
close_row now fresh id deleted s row =
    guard (not (is_some row.deleted_at)) not_found >> ok (row, closed_store now fresh id deleted s)

unfoldable pub update_credential_lifecycle :
    ℕ → ℕ → ℕ → Bool → Store → Result Refusal (CredentialRow × Store)
unfolding credential_of
update_credential_lifecycle now fresh id deleted s =
    or_fail (credential_of id s) not_found >>= close_row now fresh id deleted s

abbrev pub log_closed : ℕ → ℕ → ℕ → Bool → CredentialRow × Store → Result Refusal Store
log_closed actor_id correlation_id id deleted (row, s) = ok (record s {
  events = append_audit s.events (record {
    event_type = if deleted then "kaja.deleted" else "kaja.revoked";
    actor_type = "admin";
    actor_id = some (uuid actor_id);
    object_type = some "kaja_credential";
    object_id = some (uuid id);
    before = null;
    after = object (("publicId", num row.public_id) ∷ ("label", text row.label) ∷ []);
    correlation_id = correlation_id;
  });
})

-- `revokeKajaCredential`, and `deleteKajaCredential` where `deleted` is true.
unfoldable pub close_kaja_credential : ℕ → ℕ → ℕ → ℕ → ℕ → Bool → Store → Result Refusal Store
unfolding update_credential_lifecycle
close_kaja_credential now fresh actor_id correlation_id id deleted s =
    update_credential_lifecycle now fresh id deleted s
    >>= log_closed actor_id correlation_id id deleted

abbrev pub is_usable : ℕ → CredentialRow → Bool
is_usable id c =
    (c.id == id) && not (is_some c.deleted_at) && not (is_some c.revoked_at) && c.active

abbrev pub relabeled : List ℕ → CredentialRow → CredentialRow
relabeled label c = record c { label = label }

abbrev pub renamed : ℕ → ℕ → ℕ → List ℕ → CredentialRow → Store → Store
renamed actor_id correlation_id id normalized_label current s = record s {
  credentials = update_where (is_usable id) (relabeled normalized_label) s.credentials;
  events = append_audit s.events (record {
    event_type = "kaja.label.updated";
    actor_type = "admin";
    actor_id = some (uuid actor_id);
    object_type = some "kaja_credential";
    object_id = some (uuid id);
    before = object (("publicId", num current.public_id) ∷ ("label", text current.label) ∷ []);
    after = object (("publicId", num current.public_id) ∷ ("label", text normalized_label) ∷ []);
    correlation_id = correlation_id;
  });
}

abbrev pub rename_row : ℕ → ℕ → ℕ → List ℕ → Store → CredentialRow → Result Refusal Store
rename_row actor_id correlation_id id normalized_label s current =
    guard (not (is_some current.deleted_at)) not_found
    >> (guard (current.active && not (is_some current.revoked_at)) credential_immutable
        >> ok (renamed actor_id correlation_id id normalized_label current s))

unfoldable pub rename_kaja_credential : ℕ → ℕ → ℕ → List ℕ → Store → Result Refusal Store
unfolding trim credential_of
rename_kaja_credential actor_id correlation_id id label s =
    guard (not (ltb (length (trim label)) 1 || ltb 120 (length (trim label)))) invalid_label
    >> (or_fail (credential_of id s) not_found
        >>= rename_row actor_id correlation_id id (trim label) s)
