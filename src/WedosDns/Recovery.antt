-- ===== src/WedosDns/Recovery.antt =====
-- Operations that were interrupted: they fail, are cleaned up by ownership, or go on.
-- (apps/server/src/tls/wedos-dns-operation.ts)
use kajovo_cml.Prelude.{
  ℕ, Bool, true, not, ◌&&◌, ◌||◌, ◌==◌, nat_eq, text_eq, Option, none, some, [], ◌∷◌, find, filter,
  if◌then◌else◌,
}
use kajovo_cml.Security.Text.{codes}
use kajovo_cml.WedosDns.Names.{Text, Error, error, upper_text}
use kajovo_cml.WedosDns.Store.{
  created, row_added, committed, propagated, cleanup_requested, deleted, cleanup_propagated, failed,
  rank, is_in, Operation, WdnsRow, txt_values, Service, M, ◌>>=◌, ◌>>◌, return, throw, require, ask,
  get_operation, record_safe_error, update_state,
}
use kajovo_cml.WedosDns.Rows.{single, ask_rows, discard}
use kajovo_cml.WedosDns.Publish.{add_txt_row, commit_dns_operation, mark_propagated}
use kajovo_cml.WedosDns.Cleanup.{cleanup_dns_operation}
use kajovo_cml.WedosDns.Rows.{is_final}

unfoldable pub fail_wedos_dns_operation : ℕ → Error → M Operation
unfolding get_operation record_safe_error update_state
fail_wedos_dns_operation id e = do
  operation ← get_operation id
  if is_final operation.state then return operation else do
    record_safe_error id e
    update_state id
        (created ∷ row_added ∷ committed ∷ propagated ∷ cleanup_requested ∷ deleted ∷ []) failed
    get_operation id

unfoldable pub mark_cleanup_propagated_without_value : ℕ → M Operation
unfolding get_operation update_state
mark_cleanup_propagated_without_value id = do
  operation ← get_operation id
  if rank operation.state == 6 then return operation else do
    if rank operation.state == 4
        then update_state id (cleanup_requested ∷ []) deleted
        else return tt
    update_state id (deleted ∷ []) cleanup_propagated
    get_operation id

-- `!operation.wedosRowId || …`.
abbrev pub agrees_with_id : Operation → WdnsRow → Bool
agrees_with_id operation row = elim operation.wedos_row_id [
  | none ↦ true
  | some row_id ↦ row_id == [] || upper_text row.id == upper_text row_id
]

module _ (digest : Text → Text) (service : Service) where
  unfoldable pub is_candidate : Operation → WdnsRow → Bool
  is_candidate operation row =
      row.name == operation.record_name
      && row.rdtype == codes "TXT"
      && row.author_comment == operation.author_comment
      && digest row.rdata == operation.value_digest
      && agrees_with_id operation row

  unfoldable pub find_authoritative_txt_by_digest : Operation → M (Option Text)
  find_authoritative_txt_by_digest operation = do
    values ←
        ask (txt_values operation.zone operation.record_name)
          (λ calls. service.values calls (txt_values operation.zone operation.record_name))
    return (find (λ value. digest value == operation.value_digest) values)

  -- An empty value is no value for `if (authoritativeValue)`.
  abbrev pub recovered : ℕ → Option Text → M Operation
  recovered id none = mark_cleanup_propagated_without_value id
  recovered id (some []) = mark_cleanup_propagated_without_value id
  recovered id (some (c ∷ value)) = cleanup_dns_operation digest service id (c ∷ value)

  unfoldable pub without_row : ℕ → Operation → M Operation
  unfolding fail_wedos_dns_operation find_authoritative_txt_by_digest
      mark_cleanup_propagated_without_value cleanup_dns_operation
  without_row id operation =
      if rank operation.state == 0
      then fail_wedos_dns_operation id (error (codes "wedos_dns_owned_row_not_found_before_add"))
      else if is_in (cleanup_requested ∷ deleted ∷ []) operation.state
      then find_authoritative_txt_by_digest operation >>= recovered id
      else throw (codes "wedos_dns_owned_row_missing_for_recovery")

  unfoldable pub with_owned : ℕ → Operation → WdnsRow → M Operation
  unfolding cleanup_dns_operation
  with_owned id operation row = do
    require (not (rank operation.state == 5))
        (codes "wedos_dns_deleted_operation_row_still_present")
    require (agrees_with_id operation row) (codes "wedos_dns_cleanup_row_ownership_mismatch")
    cleanup_dns_operation digest service id row.rdata

  abbrev pub recover_from : ℕ → Operation → Option WdnsRow → M Operation
  recover_from id operation none = without_row id operation
  recover_from id operation (some row) = with_owned id operation row

  unfoldable pub cleanup_dns_operation_by_ownership : ℕ → M Operation
  unfolding get_operation is_candidate without_row with_owned
  cleanup_dns_operation_by_ownership id = do
    operation ← get_operation id
    if rank operation.state == 6 then return operation else do
      rows ← ask_rows digest service operation.zone
      owned ← single (filter (is_candidate operation) rows)
      recover_from id operation owned

  unfoldable pub recover_dns_operation : ℕ → Text → M Operation
  unfolding get_operation add_txt_row commit_dns_operation mark_propagated
  recover_dns_operation id value = do
    operation ← get_operation id
    if is_in (created ∷ row_added ∷ []) operation.state
        then discard (add_txt_row digest service id value)
        else return tt
    after_add ← get_operation id
    if rank after_add.state == 1
        then discard (commit_dns_operation digest service id value)
        else return tt
    after_commit ← get_operation id
    if rank after_commit.state == 2
        then discard (mark_propagated digest service id value none)
        else return tt
    get_operation id
