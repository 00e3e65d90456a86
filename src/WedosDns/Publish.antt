-- ===== src/WedosDns/Publish.antt =====
-- The way of a record to the name servers: added, committed, propagated.
-- (apps/server/src/tls/wedos-dns-operation.ts)
use kajovo_cml.Prelude.{ℕ, true, ◌==◌, nat_eq, text_eq, Option, none, some, [], ◌∷◌, if◌then◌else◌}
use kajovo_cml.Security.Text.{codes}
use kajovo_cml.WedosDns.Names.{Text, upper_text}
use kajovo_cml.WedosDns.Store.{
  created, row_added, committed, propagated, cleanup_requested, deleted, cleanup_propagated, rank,
  Operation, WdnsRow, Snapshot, row_add, domain_commit, Service, M, ◌>>=◌, ◌>>◌, return, require,
  change, get_operation, record_attempt, update_state, try_recorded,
}
use kajovo_cml.WedosDns.Rows.{entered, command, list_exact_owned_row, or_throw, is_own_row, resolve}

abbrev pub with_row : Text → Operation → Operation
with_row row_id operation =
    if rank operation.state == 0
    then record operation { wedos_row_id = some row_id; state = row_added }
    else operation

module _ (digest : Text → Text) (service : Service) where
  abbrev pub add_unless_owned : Operation → Text → Option WdnsRow → M (Option WdnsRow)
  add_unless_owned operation value (some row) = return (some row)
  add_unless_owned operation value none =
      command digest service
        (row_add operation.zone operation.record_name value operation.author_comment 300)
      >> list_exact_owned_row digest service operation value

  unfoldable pub add_step : ℕ → Operation → Text → M Operation
  unfolding list_exact_owned_row get_operation
  add_step id operation value = do
    owned ← list_exact_owned_row digest service operation value
    found ← add_unless_owned operation value owned
    row ← or_throw found (codes "wedos_dns_owned_row_not_visible_after_add")
    change id (with_row (upper_text row.id))
    get_operation id

  unfoldable pub add_txt_row : ℕ → Text → M Operation
  unfolding add_step get_operation record_attempt
  add_txt_row id value = do
    operation ← get_operation id
    entered
        (row_added ∷ committed ∷ propagated ∷ cleanup_requested ∷ deleted ∷ cleanup_propagated ∷ [])
        (created ∷ []) (codes "wedos_dns_add_not_allowed:")
        (record_attempt id >> try_recorded id (add_step id operation value)) operation

  unfoldable pub commit_step : ℕ → Operation → Text → M Operation
  unfolding list_exact_owned_row is_own_row update_state get_operation
  commit_step id operation value = do
    owned ← list_exact_owned_row digest service operation value
    require (is_own_row operation owned) (codes "wedos_dns_owned_row_revalidation_failed")
    command digest service (domain_commit operation.zone)
    update_state id (row_added ∷ []) committed
    get_operation id

  unfoldable pub commit_dns_operation : ℕ → Text → M Operation
  unfolding commit_step get_operation record_attempt
  commit_dns_operation id value = do
    operation ← get_operation id
    entered (committed ∷ propagated ∷ cleanup_requested ∷ deleted ∷ cleanup_propagated ∷ [])
        (row_added ∷ []) (codes "wedos_dns_commit_not_allowed:")
        (record_attempt id >> try_recorded id (commit_step id operation value)) operation

  unfoldable pub propagate_step : ℕ → Operation → Text → Option Snapshot → M Operation
  unfolding update_state get_operation
  propagate_step id operation value baseline = do
    resolve digest service operation value true baseline
    update_state id (committed ∷ []) propagated
    get_operation id

  unfoldable pub mark_propagated : ℕ → Text → Option Snapshot → M Operation
  unfolding propagate_step get_operation record_attempt
  mark_propagated id value baseline = do
    operation ← get_operation id
    entered (propagated ∷ cleanup_requested ∷ deleted ∷ cleanup_propagated ∷ []) (committed ∷ [])
        (codes "wedos_dns_propagation_not_allowed:")
        (record_attempt id >> try_recorded id (propagate_step id operation value baseline))
        operation
