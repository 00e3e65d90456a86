-- ===== src/WedosDns/Cleanup.antt =====
-- The way of a record back: its row is deleted where it is the operation's own.
-- (apps/server/src/tls/wedos-dns-operation.ts)
use kajovo_cml.Prelude.{
  ℕ, false, not, ◌==◌, nat_eq, text_eq, Option, none, some, [], ◌∷◌, is_some, if◌then◌else◌,
}
use kajovo_cml.Security.Text.{codes}
use kajovo_cml.WedosDns.Names.{Text, upper_text}
use kajovo_cml.WedosDns.Store.{
  row_added, committed, propagated, cleanup_requested, deleted, cleanup_propagated, rank, is_in,
  Operation, WdnsRow, Snapshot, row_delete, domain_commit, Service, M, ◌>>=◌, ◌>>◌, return, require,
  get_operation, record_attempt, update_state, try_recorded,
}
use kajovo_cml.WedosDns.Rows.{entered, command, list_exact_owned_row, is_own_row, observe, resolve}

module _ (digest : Text → Text) (service : Service) where
  unfoldable pub request_cleanup : ℕ → Operation → Text → M (Operation × Option Snapshot)
  unfolding update_state get_operation
  request_cleanup id operation value = do
    baseline ← observe digest service operation value
    update_state id (row_added ∷ propagated ∷ committed ∷ []) cleanup_requested
    current ← get_operation id
    return (current, some baseline)

  abbrev pub delete_owned : Operation → Text → Option WdnsRow → M (Unit {0})
  delete_owned operation value none = return tt
  delete_owned operation value (some row) = do
    require (is_own_row operation (some row)) (codes "wedos_dns_cleanup_row_ownership_mismatch")
    command digest service (row_delete operation.zone (upper_text (upper_text row.id)))
    after_delete ← list_exact_owned_row digest service operation value
    require (not (is_some after_delete)) (codes "wedos_dns_owned_row_still_present_after_delete")
    command digest service (domain_commit operation.zone)

  unfoldable pub delete_own_row : Operation → Text → M (Unit {0})
  unfolding list_exact_owned_row is_own_row
  delete_own_row operation value = do
    owned ← list_exact_owned_row digest service operation value
    delete_owned operation value owned

  unfoldable pub delete_step : ℕ → Operation → Text → M Operation
  unfolding delete_own_row update_state get_operation
  delete_step id operation value = do
    delete_own_row operation value
    update_state id (cleanup_requested ∷ []) deleted
    get_operation id

  unfoldable pub confirm_step : ℕ → Operation → Text → Option Snapshot → M (Unit {0})
  unfolding update_state
  confirm_step id operation value baseline =
      resolve digest service operation value false baseline
      >> update_state id (deleted ∷ []) cleanup_propagated

  abbrev pub requested : ℕ → Operation → Text → M (Operation × Option Snapshot)
  requested id operation value =
      if is_in (row_added ∷ propagated ∷ committed ∷ []) operation.state
      then request_cleanup id operation value
      else return (operation, none)

  abbrev pub removed : ℕ → Operation → Text → M Operation
  removed id operation value =
      if rank operation.state == 4 then delete_step id operation value else return operation

  abbrev pub confirmed : ℕ → Operation → Text → Option Snapshot → M (Unit {0})
  confirmed id operation value baseline =
      if rank operation.state == 5 then confirm_step id operation value baseline else return tt

  unfoldable pub cleanup_step : ℕ → Operation → Text → M Operation
  unfolding request_cleanup delete_step confirm_step get_operation
  cleanup_step id operation value = do
    (requested_operation, baseline) ← requested id operation value
    removed_operation ← removed id requested_operation value
    confirmed id removed_operation value baseline
    get_operation id

  unfoldable pub cleanup_dns_operation : ℕ → Text → M Operation
  unfolding cleanup_step get_operation record_attempt
  cleanup_dns_operation id value = do
    operation ← get_operation id
    entered (cleanup_propagated ∷ [])
        (row_added ∷ propagated ∷ committed ∷ cleanup_requested ∷ deleted ∷ [])
        (codes "wedos_dns_cleanup_not_allowed:")
        (record_attempt id >> try_recorded id (cleanup_step id operation value)) operation
