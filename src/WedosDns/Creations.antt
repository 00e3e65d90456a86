-- ===== src/WedosDns/Creations.antt =====
-- The creation of an operation and its whole run keep to its life
-- (apps/server/src/tls/wedos-dns-operation.ts).
use kajovo_cml.Prelude.{
  ℕ, ◌==◌, nat_eq, nat_beq_iff, none, some, ◌≡◌, ap, ◌∙◌, inl, inr, Bool-cases, Option-cases,
  if◌then◌else◌, Result, ok, err,
}
use kajovo_cml.WedosDns.Names.{
  Text, Error, Purpose, normalize_zone, normalize_record_name, operation_author_comment,
  parse_author_comment,
}
use kajovo_cml.WedosDns.Store.{
  created, rank, Operation, observe_dns, Service, World, M, ◌>>◌, return,
}
use kajovo_cml.WedosDns.Rows.{discard, observe}
use kajovo_cml.WedosDns.Publish.{add_txt_row, commit_dns_operation, mark_propagated}
use kajovo_cml.WedosDns.Recovery.{fail_wedos_dns_operation}
use kajovo_cml.WedosDns.Creation.{
  inserted, insert, lift, log_created, failed_if_created, caught, create_wedos_dns_operation,
  committed_baseline, run_dns_operation,
}
use kajovo_cml.WedosDns.Lifecycle.{Evolves, Evolves-refl}
use kajovo_cml.WedosDns.Moves.{
  Moves, Moves-refl, Moves-trans, AllOwned-evolves, ask-Moves, bind-Moves,
}
use kajovo_cml.WedosDns.Steps.{Goes, get-bind, require-bind}
use kajovo_cml.WedosDns.Publications.{
  add_txt_row-Goes, commit_dns_operation-Goes, mark_propagated-Goes,
}
use kajovo_cml.WedosDns.Recoveries.{discard-Goes, when-Goes, fail-Goes}

module _ (digest : Text → Text) (service : Service) where
  insert-Goes : (id : ℕ) (o : Operation) (w : World) → Goes digest service (insert id o) w
  insert-Goes id o w = elim (Option-cases (w.operations id)) [
    | inr (p, e) ↦ rw e (Moves-refl digest service w)
    | inl e ↦ rw e (record {
      evolves = evolves e;
      keeps_owned = AllOwned-evolves digest service w.operations _ (evolves e) w.calls;
    })
  ]
    where
      evolves :
          w.operations id ≡ none
          → (k : ℕ) → Evolves (w.operations k) ((inserted id o w).operations k)
      evolves e k = elim (Bool-cases (k == id)) [
        | inl f ↦
            let free : w.operations k ≡ none = ap w.operations ((nat_beq_iff k id).0 f) ∙ e in
            rw free tt
        | inr f ↦ rw f (Evolves-refl (w.operations k))
      ]

  lift-Goes : {A : Type 0} (r : Result Error A) (w : World) → Goes digest service (lift r) w
  lift-Goes r w = Moves-refl digest service w

  log-Goes :
      (id correlation : ℕ) (o : Operation) (w : World)
      → Goes digest service (log_created id correlation o) w
  log-Goes id correlation o w = record {
    evolves = λ k. Evolves-refl (w.operations k);
    keeps_owned = λ h. h;
  }

  pub create-Goes :
      (id correlation : ℕ) (purpose : Purpose) (zone record_name value correlation_id : Text)
      (w : World)
      → Goes digest service
          (create_wedos_dns_operation digest service id correlation purpose zone record_name value
            correlation_id)
          w
  unfolding create_wedos_dns_operation
  create-Goes id correlation purpose zone record_name value correlation_id w =
      bind-Moves digest service (lift (normalize_zone zone)) _ w (lift-Goes (normalize_zone zone) w)
        λ z h.
          bind-Moves digest service (lift (normalize_record_name record_name)) _ w
            (lift-Goes (normalize_record_name record_name) w)
            λ n h.
              bind-Moves digest service (lift (operation_author_comment purpose correlation_id)) _ w
                (lift-Goes (operation_author_comment purpose correlation_id) w)
                λ c h. require-bind digest service (parse_author_comment c purpose) _ _ w λ parsed.
                  let o : Operation = record {
                    purpose = purpose;
                    correlation_id = correlation_id;
                    zone = z;
                    record_name = n;
                    value_digest = digest value;
                    author_comment = c;
                    wedos_row_id = none;
                    state = created;
                    attempt_count = 0;
                    last_safe_error_code = none;
                  } in
                  bind-Moves digest service (insert id o)
                    (λ done. log_created id correlation o >> return o) w (insert-Goes id o w)
                    λ done h.
                      bind-Moves digest service (log_created id correlation o) (λ done. return o) _
                        (log-Goes id correlation o _) λ done h. Moves-refl digest service _

  failed_if_created-Goes :
      (A : Type 0) (id : ℕ) (e : Error) (w : World)
      → Goes digest service (failed_if_created {A = A} id e) w
  failed_if_created-Goes A id e w =
      let fail_it = discard (fail_wedos_dns_operation id e) in
      get-bind digest service id _ w λ o h.
        bind-Moves digest service (if rank o.state == 0 then fail_it else return tt)
          (λ done. lift {A = A} (err e)) w
          (when-Goes digest service (rank o.state == 0) fail_it w (
            discard-Goes digest service (fail_wedos_dns_operation id e) w
              (fail-Goes digest service id e w)))
          λ done k. Moves-refl digest service _

  caught-Goes :
      {A : Type 0} (id : ℕ) (m : M A) (w : World)
      → Goes digest service m w
      → Goes digest service (λ v. caught (failed_if_created id) (m v)) w
  caught-Goes {A} id m w h = go (m w) h
    where
      go :
          (r : Result Error A × World)
          → Moves digest service w r.1
          → Moves digest service w (caught (failed_if_created id) r).1
      go (ok a, v) h = h
      go (err e, v) h = Moves-trans digest service w v _ h (failed_if_created-Goes A id e v)

  committed_baseline-Goes :
      (id : ℕ) (o : Operation) (value : Text) (w : World)
      → Goes digest service (committed_baseline digest service id o value) w
  committed_baseline-Goes id o value w =
      let call = observe_dns o.zone o.record_name value in
      bind-Moves digest service (observe digest service o value) _ w
        (ask-Moves digest service call (λ calls. service.observed calls call) w tt)
        λ baseline h.
          bind-Moves digest service (discard (add_txt_row digest service id value)) _ _
            (discard-Goes digest service (add_txt_row digest service id value) _
              (add_txt_row-Goes digest service id value _))
            λ done h.
              bind-Moves digest service (discard (commit_dns_operation digest service id value))
                (λ done. return baseline) _
                (discard-Goes digest service (commit_dns_operation digest service id value) _
                  (commit_dns_operation-Goes digest service id value _))
                λ done h. Moves-refl digest service _

  pub run-Goes :
      (id correlation : ℕ) (purpose : Purpose) (zone record_name value correlation_id : Text)
      (w : World)
      → Goes digest service
          (run_dns_operation digest service id correlation purpose zone record_name value
            correlation_id)
          w
  unfolding run_dns_operation
  run-Goes id correlation purpose zone record_name value correlation_id w =
      bind-Moves digest service
        (create_wedos_dns_operation digest service id correlation purpose zone record_name value
          correlation_id)
        _ w (create-Goes id correlation purpose zone record_name value correlation_id w)
        λ o h.
          bind-Moves digest service
            (λ v. caught (failed_if_created id) (committed_baseline digest service id o value v))
            (λ baseline. mark_propagated digest service id value (some baseline)) _
            (caught-Goes id (committed_baseline digest service id o value) _
              (committed_baseline-Goes id o value _))
            λ baseline k. mark_propagated-Goes digest service id value (some baseline) _
