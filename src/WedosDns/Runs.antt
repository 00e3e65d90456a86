-- ===== src/WedosDns/Runs.antt =====
-- Sequences of operations on the table of DNS operations (apps/server/src/tls/wedos-dns-operation.ts).
use kajovo_cml.Prelude.{ℕ, Option, none, List, [], ◌∷◌}
use kajovo_cml.WedosDns.Names.{Text, Error, Purpose}
use kajovo_cml.WedosDns.Store.{Operation, WdnsRow, Snapshot, Service, World}
use kajovo_cml.WedosDns.Publish.{add_txt_row, commit_dns_operation, mark_propagated}
use kajovo_cml.WedosDns.Cleanup.{cleanup_dns_operation}
use kajovo_cml.WedosDns.Recovery.{
  fail_wedos_dns_operation, recover_from, cleanup_dns_operation_by_ownership, recover_dns_operation,
}
use kajovo_cml.WedosDns.Creation.{create_wedos_dns_operation, run_dns_operation}
use kajovo_cml.WedosDns.Lifecycle.{Evolves}
use kajovo_cml.WedosDns.Moves.{Moves, Moves-refl, Moves-trans, AllOwned}
use kajovo_cml.WedosDns.Publications.{
  add_txt_row-Goes, commit_dns_operation-Goes, mark_propagated-Goes,
}
use kajovo_cml.WedosDns.Cleanups.{cleanup_dns_operation-Goes}
use kajovo_cml.WedosDns.Recoveries.{fail-Goes, recover_from-Goes, by_ownership-Goes, recover-Goes}
use kajovo_cml.WedosDns.Creations.{create-Goes, run-Goes}

-- A call of an exported function on the row `id`. `resume` is the second half of
-- `cleanupDnsOperationByOwnership`, with whatever operation and row its first half has read before others
-- went on.
pub data Request : Type 0 where
  create :
      (id correlation : ℕ) (purpose : Purpose) (zone record_name value correlation_id : Text)
      → Request
  run :
      (id correlation : ℕ) (purpose : Purpose) (zone record_name value correlation_id : Text)
      → Request
  add : (id : ℕ) (value : Text) → Request
  commit : (id : ℕ) (value : Text) → Request
  propagate : (id : ℕ) (value : Text) (baseline : Option Snapshot) → Request
  cleanup : (id : ℕ) (value : Text) → Request
  cleanup_by_ownership : (id : ℕ) → Request
  resume : (id : ℕ) (operation : Operation) (owned : Option WdnsRow) → Request
  recover : (id : ℕ) (value : Text) → Request
  give_up : (id : ℕ) (e : Error) → Request

abbrev pub no_operations : World
no_operations = record { operations = λ id. none; calls = []; events = [] }

module _ (digest : Text → Text) (service : Service) where
  unfoldable pub handled : Request → World → World
  unfolding create_wedos_dns_operation run_dns_operation add_txt_row commit_dns_operation
      mark_propagated cleanup_dns_operation cleanup_dns_operation_by_ownership recover_dns_operation
      fail_wedos_dns_operation
  handled (create id c purpose zone record_name value correlation_id) w =
      (create_wedos_dns_operation digest service id c purpose zone record_name value correlation_id
        w).1
  handled (run id c purpose zone record_name value correlation_id) w =
      (run_dns_operation digest service id c purpose zone record_name value correlation_id w).1
  handled (add id value) w = (add_txt_row digest service id value w).1
  handled (commit id value) w = (commit_dns_operation digest service id value w).1
  handled (propagate id value baseline) w = (mark_propagated digest service id value baseline w).1
  handled (cleanup id value) w = (cleanup_dns_operation digest service id value w).1
  handled (cleanup_by_ownership id) w = (cleanup_dns_operation_by_ownership digest service id w).1
  handled (resume id operation owned) w = (recover_from digest service id operation owned w).1
  handled (recover id value) w = (recover_dns_operation digest service id value w).1
  handled (give_up id e) w = (fail_wedos_dns_operation id e w).1

  unfoldable pub handle_all : List Request → World → World
  unfolding handled
  handle_all [] w = w
  handle_all (r ∷ requests) w = handle_all requests (handled r w)

  handled-Moves : (r : Request) (w : World) → Moves digest service w (handled r w)
  unfolding handled
  handled-Moves (create id c purpose zone record_name value correlation_id) w =
      create-Goes digest service id c purpose zone record_name value correlation_id w
  handled-Moves (run id c purpose zone record_name value correlation_id) w =
      run-Goes digest service id c purpose zone record_name value correlation_id w
  handled-Moves (add id value) w = add_txt_row-Goes digest service id value w
  handled-Moves (commit id value) w = commit_dns_operation-Goes digest service id value w
  handled-Moves (propagate id value baseline) w =
      mark_propagated-Goes digest service id value baseline w
  handled-Moves (cleanup id value) w = cleanup_dns_operation-Goes digest service id value w
  handled-Moves (cleanup_by_ownership id) w = by_ownership-Goes digest service id w
  handled-Moves (resume id operation owned) w =
      recover_from-Goes digest service id operation owned w
  handled-Moves (recover id value) w = recover-Goes digest service id value w
  handled-Moves (give_up id e) w = fail-Goes digest service id e w

  handle_all-Moves :
      (requests : List Request) (w : World) → Moves digest service w (handle_all requests w)
  unfolding handle_all
  handle_all-Moves [] w = Moves-refl digest service w
  handle_all-Moves (r ∷ requests) w =
      Moves-trans digest service w (handled r w) _ (handled-Moves r w)
        (handle_all-Moves requests (handled r w))

  -- Whatever the provider and the name servers answer, every sequence of operations, started with an empty
  -- table and finished or broken off by errors, deletes a row at the provider only directly behind a
  -- listing of the zone in which the row bears the name, the type, the digest of the value and the
  -- comment of an operation that is being cleaned up and that has recorded the identifier of this row.
  pub handle_all-AllOwned :
      (requests : List Request)
      → AllOwned digest service
          (handle_all requests no_operations).operations
          (handle_all requests no_operations).calls
  handle_all-AllOwned requests = (handle_all-Moves requests no_operations).keeps_owned tt

  -- Every sequence of operations refines the life of an operation: each row of the table is still there
  -- and has gone on along the table of states, by the addition of its row, or by a note of an attempt or
  -- an error while it is not at an end, and no other way.
  pub handle_all-Evolves :
      (requests : List Request) (w : World) (id : ℕ)
      → Evolves (w.operations id) ((handle_all requests w).operations id)
  handle_all-Evolves requests w id = (handle_all-Moves requests w).evolves id
