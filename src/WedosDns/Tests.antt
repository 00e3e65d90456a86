-- ===== src/WedosDns/Tests.antt =====
-- A provider that keeps the rows it is told, and a life of an operation with it.
use kajovo_cml.Prelude.{
  ℕ, true, false, not, ◌==◌, nat_eq, text_eq, Option, none, some, List, [], ◌∷◌, map, filter, ◌≡◌,
  refl, ok, err, Bool, ◌&&◌, Result, ◌++◌, if◌then◌else◌,
}
use kajovo_cml.Security.Text.{codes}
use kajovo_cml.WedosDns.Names.{
  Text, Error, upper, upper_text, acme, preflight_test, operation_author_comment,
  parse_author_comment,
}
use kajovo_cml.WedosDns.Store.{
  created, cleanup_requested, deleted, is_in, cleanup_propagated, committed, propagated, rank,
  Operation, WdnsRow, Snapshot, Call, rows_list, row_add, row_delete, domain_commit, observe_dns,
  resolve_txt, txt_values, Service, World,
}
use kajovo_cml.WedosDns.Lifecycle.{Evolves}
use kajovo_cml.WedosDns.Moves.{AllOwned, Post}
use kajovo_cml.WedosDns.Rows.{entered}
use kajovo_cml.WedosDns.Publish.{commit_dns_operation, mark_propagated}
use kajovo_cml.WedosDns.Cleanup.{cleanup_dns_operation}
use kajovo_cml.WedosDns.Runs.{
  Request, run, cleanup, add, commit, no_operations, handle_all, handle_all-AllOwned,
  handle_all-Evolves,
}
use kajovo_cml.WedosDns.Returns.{operations_returned}
use kajovo_cml.WedosDns.Comments.{parse-operation_author_comment}

-- The rows behind a history of calls.
abbrev kept : List Call → List WdnsRow
kept [] =
    record {
      id = codes "7";
      name = codes "_acme-challenge";
      ttl = 300;
      rdtype = codes "TXT";
      rdata = codes "other";
      author_comment = codes "someone";
    }
    ∷ []
kept (rows_list zone ∷ calls) = kept calls
kept (row_add zone row_name value comment ttl ∷ calls) =
    record {
      id = codes "a1";
      name = row_name;
      ttl = ttl;
      rdtype = codes "TXT";
      rdata = value;
      author_comment = comment;
    }
    ∷ kept calls
kept (row_delete zone row_id ∷ calls) =
    filter (λ (r : WdnsRow). not (upper_text r.id == row_id)) (kept calls)
kept (domain_commit zone ∷ calls) = kept calls
kept (observe_dns zone record_name value ∷ calls) = kept calls
kept (resolve_txt zone record_name value present baseline ∷ calls) = kept calls
kept (txt_values zone record_name ∷ calls) = kept calls

abbrev reached : Snapshot
reached = record { zone = codes "hcasc.cz"; elapsed_seconds = 0; observations = [] }

abbrev provider : Service
provider = record {
  rows = λ calls zone. ok (kept calls);
  done = λ calls call. ok tt;
  observed = λ calls call. ok reached;
  values = λ calls call. ok [];
}

-- A provider that adds no row.
abbrev forgetful : Service
forgetful = record provider { rows = λ calls zone. ok (kept []) }

abbrev digest : Text → Text
digest value = codes "d" ++ value

abbrev compact : Text
compact = codes "0123456789abcdef0123456789ABCDEF"

abbrev life : List Request
life =
    run 1 5 acme (codes " HCASC.cz.") (codes "_acme-challenge") (codes "proof") compact
    ∷ cleanup 1 (codes "proof")
    ∷ []

state_of : Option Operation → ℕ
state_of none = 99
state_of (some o) = rank o.state

run_propagates :
    state_of (
      (handle_all digest provider
          (run 1 5 acme (codes " HCASC.cz.") (codes "_acme-challenge") (codes "proof") compact ∷ [])
          no_operations).operations
        1)
    ≡ 3
unfolding state_of handle_all entered upper
run_propagates = refl

life_ends : state_of ((handle_all digest provider life no_operations).operations 1) ≡ 6
unfolding state_of handle_all entered upper
life_ends = refl

one_row_left :
    map (λ (r : WdnsRow). r.id) (kept (handle_all digest provider life no_operations).calls)
    ≡ codes "7" ∷ []
unfolding handle_all entered upper
one_row_left = refl

run_forgotten : state_of ((handle_all digest forgetful life no_operations).operations 1) ≡ 7
unfolding state_of handle_all entered upper
run_forgotten = refl

handle_all-AllOwned_example :
    AllOwned digest provider
      (handle_all digest provider life no_operations).operations
      (handle_all digest provider life no_operations).calls
handle_all-AllOwned_example = handle_all-AllOwned digest provider life

abbrev begun : World
begun = record no_operations {
  operations = λ id.
      if id == 1
      then some (record {
        purpose = acme;
        correlation_id = compact;
        zone = codes "hcasc.cz";
        record_name = codes "_acme-challenge";
        value_digest = digest (codes "proof");
        author_comment = codes "kcmlacme0123456789abcdef0123456789abcdef";
        wedos_row_id = none;
        state = created;
        attempt_count = 0;
        last_safe_error_code = none;
      })
      else none;
}

handle_all-Evolves_example : Evolves (begun.operations 1) (
    (handle_all digest provider
        (add 1 (codes "proof") ∷ cleanup 1 (codes "proof") ∷ [])
        begun).operations
      1)
handle_all-Evolves_example =
    handle_all-Evolves digest provider (add 1 (codes "proof") ∷ cleanup 1 (codes "proof") ∷ [])
      begun 1

abbrev added : World
added = handle_all digest provider (add 1 (codes "proof") ∷ []) begun

abbrev published : World
published = handle_all digest provider (add 1 (codes "proof") ∷ commit 1 (codes "proof") ∷ []) begun

is_ok : {A : Type 0} → Result Error A × World → Bool
is_ok (ok a, w) = true
is_ok (err e, w) = false

-- All three calls return an operation.
published_returns :
    is_ok (commit_dns_operation digest provider 1 (codes "proof") added)
      && is_ok (mark_propagated digest provider 1 (codes "proof") none published)
      && is_ok (cleanup_dns_operation digest provider 1 (codes "proof") published)
    ≡ true
unfolding is_ok handle_all entered upper commit_dns_operation mark_propagated cleanup_dns_operation
published_returns = refl

operations_returned_example :
    Post
      (λ (o : Operation) (w : World).
        is_in
          (committed ∷ propagated ∷ cleanup_requested ∷ deleted ∷ cleanup_propagated ∷ [])
          o.state
        ≡ true)
      (commit_dns_operation digest provider 1 (codes "proof") added)
    × Post
        (λ (o : Operation) (w : World).
          is_in (propagated ∷ cleanup_requested ∷ deleted ∷ cleanup_propagated ∷ []) o.state ≡ true)
        (mark_propagated digest provider 1 (codes "proof") none published)
    × Post
        (λ (o : Operation) (w : World). is_in (cleanup_propagated ∷ []) o.state ≡ true)
        (cleanup_dns_operation digest provider 1 (codes "proof") published)
operations_returned_example =
    operations_returned digest provider 1 (codes "proof") none added published published

parse-operation_author_comment_example :
    parse_author_comment (codes "kcmlacme0123456789abcdef0123456789abcdef") preflight_test ≡ false
unfolding operation_author_comment
parse-operation_author_comment_example =
    parse-operation_author_comment acme preflight_test compact
      (codes "kcmlacme0123456789abcdef0123456789abcdef") refl
