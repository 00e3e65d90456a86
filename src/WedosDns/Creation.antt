-- ===== src/WedosDns/Creation.antt =====
-- The creation of an operation and its whole run.
-- (apps/server/src/tls/wedos-dns-operation.ts)
use kajovo_cml.Prelude.{
  ℕ, ◌==◌, nat_eq, text_eq, none, some, [], ◌∷◌, is_some, if◌then◌else◌, Result, ok, err,
}
use kajovo_cml.Security.Text.{codes}
use kajovo_cml.Security.Redact.{null, text, object}
use kajovo_cml.Audit.{uuid, name, append_audit}
use kajovo_cml.WedosDns.Names.{
  Text, Error, error, Purpose, normalize_zone, normalize_record_name, operation_author_comment,
  parse_author_comment,
}
use kajovo_cml.WedosDns.Store.{
  created, rank, Operation, Snapshot, Service, World, M, ◌>>=◌, ◌>>◌, return, require,
  get_operation,
}
use kajovo_cml.WedosDns.Rows.{observe, discard}
use kajovo_cml.WedosDns.Publish.{add_txt_row, commit_dns_operation, mark_propagated}
use kajovo_cml.WedosDns.Recovery.{fail_wedos_dns_operation}

-- Text that the source holds as the name of a purpose.
abbrev pub purpose_text : Purpose → Text
purpose_text Purpose.acme = codes "ACME"
purpose_text Purpose.preflight_test = codes "PREFLIGHT_TEST"

abbrev pub inserted : ℕ → Operation → World → World
inserted id operation w = record w {
  operations = λ k. if k == id then some operation else w.operations k;
}

-- The `insert` with the key that the database draws, which no other row has.
abbrev pub insert : ℕ → Operation → M (Unit {0})
insert id operation w =
    if is_some (w.operations id)
    then (err (error (codes "duplicate key value violates unique constraint")), w)
    else (ok tt, inserted id operation w)

abbrev pub lift : {A : Type 0} → Result Error A → M A
lift r w = (r, w)

abbrev pub log_created : ℕ → ℕ → Operation → M (Unit {0})
log_created id correlation operation w = (
  ok tt,
  record w {
    events = append_audit w.events (record {
      event_type = "wedos.dns.operation.created";
      actor_type = "platform";
      actor_id = some (name "platform-worker");
      object_type = some "wedos_dns_operation";
      object_id = some (uuid id);
      before = null;
      after = object (
          ("purpose", text (purpose_text operation.purpose))
          ∷ ("zone", text operation.zone)
          ∷ ("recordName", text operation.record_name)
          ∷ ("valueDigest", text operation.value_digest)
          ∷ ("authorComment", text operation.author_comment)
          ∷ []);
      correlation_id = correlation;
    });
  },
)

abbrev pub failed_if_created : {A : Type 0} → ℕ → Error → M A
failed_if_created id e = do
  current ← get_operation id
  if rank current.state == 0 then discard (fail_wedos_dns_operation id e) else return tt
  λ w. (err e, w)

abbrev pub caught : {A : Type 0} → (Error → M A) → Result Error A × World → Result Error A × World
caught handler (ok a, w) = (ok a, w)
caught handler (err e, w) = handler e w

module _ (digest : Text → Text) (service : Service) where
  -- `correlation` is the number by which the audit log knows the text `correlation_id`.
  unfoldable pub create_wedos_dns_operation :
      ℕ → ℕ → Purpose → Text → Text → Text → Text → M Operation
  unfolding normalize_zone normalize_record_name operation_author_comment parse_author_comment
  create_wedos_dns_operation id correlation purpose zone_input record_name_input value
        correlation_id =
      do
        zone ← lift (normalize_zone zone_input)
        record_name ← lift (normalize_record_name record_name_input)
        author_comment ← lift (operation_author_comment purpose correlation_id)
        require (parse_author_comment author_comment purpose)
            (codes "wedos_dns_author_comment_invalid")
        let operation : Operation = record {
          purpose = purpose;
          correlation_id = correlation_id;
          zone = zone;
          record_name = record_name;
          value_digest = digest value;
          author_comment = author_comment;
          wedos_row_id = none;
          state = created;
          attempt_count = 0;
          last_safe_error_code = none;
        }
        insert id operation
        log_created id correlation operation
        return operation

  -- The `try` block up to its `return`, whose promise is not awaited and so not under the `catch`.
  abbrev pub committed_baseline : ℕ → Operation → Text → M Snapshot
  committed_baseline id operation value = do
    baseline ← observe digest service operation value
    discard (add_txt_row digest service id value)
    discard (commit_dns_operation digest service id value)
    return baseline

  unfoldable pub run_dns_operation : ℕ → ℕ → Purpose → Text → Text → Text → Text → M Operation
  unfolding create_wedos_dns_operation add_txt_row commit_dns_operation mark_propagated
      get_operation fail_wedos_dns_operation
  run_dns_operation id correlation purpose zone record_name value correlation_id = do
    operation ←
        create_wedos_dns_operation id correlation purpose zone record_name value correlation_id
    baseline ← λ w. caught (failed_if_created id) (committed_baseline id operation value w)
    mark_propagated digest service id value (some baseline)
