-- ===== src/WedosDns/Recoveries.antt =====
-- Interrupted operations keep to their life too (apps/server/src/tls/wedos-dns-operation.ts).
use kajovo_cml.Prelude.{
  ℕ, Bool, true, false, not, ◌==◌, nat_eq, Option, none, some, [], ◌∷◌, refl, inl, inr, filter,
  Bool-cases, if◌then◌else◌,
}
use kajovo_cml.WedosDns.Names.{Text, Error}
use kajovo_cml.WedosDns.Store.{
  created, row_added, committed, propagated, cleanup_requested, deleted, cleanup_propagated, failed,
  rank, is_in, Operation, WdnsRow, rows_list, txt_values, Service, World, M, ◌>>◌, return, ask,
  get_operation, record_safe_error, update_state,
}
use kajovo_cml.WedosDns.Rows.{is_final, single, ask_rows, discard}
use kajovo_cml.WedosDns.Publish.{add_txt_row, commit_dns_operation, mark_propagated}
use kajovo_cml.WedosDns.Recovery.{
  fail_wedos_dns_operation, mark_cleanup_propagated_without_value, agrees_with_id, is_candidate,
  find_authoritative_txt_by_digest, recovered, without_row, with_owned, recover_from,
  cleanup_dns_operation_by_ownership, recover_dns_operation,
}
use kajovo_cml.WedosDns.Moves.{Moves-refl, ask-Moves, bind-Moves}
use kajovo_cml.WedosDns.Steps.{
  Goes, get-Goes, get-bind, fault-Goes, require-bind, update-Goes, single-Goes,
}
use kajovo_cml.WedosDns.Publications.{
  add_txt_row-Goes, commit_dns_operation-Goes, mark_propagated-Goes,
}
use kajovo_cml.WedosDns.Cleanups.{cleanup_dns_operation-Goes}

module _ (digest : Text → Text) (service : Service) where
  pub discard-Goes :
      {A : Type 0} (m : M A) (w : World)
      → Goes digest service m w
      → Goes digest service (discard m) w
  discard-Goes m w h =
      bind-Moves digest service m (λ a. return tt) w h (λ a k. Moves-refl digest service _)

  pub when-Goes :
      (test : Bool) (m : M (Unit {0})) (w : World)
      → Goes digest service m w
      → Goes digest service (if test then m else return tt) w
  when-Goes true m w h = h
  when-Goes false m w h = Moves-refl digest service w

  unless-Goes :
      (test : Bool) (o : Operation) (m : M Operation) (w : World)
      → Goes digest service m w
      → Goes digest service (if test then return o else m) w
  unless-Goes true o m w h = Moves-refl digest service w
  unless-Goes false o m w h = h

  pub fail-Goes :
      (id : ℕ) (e : Error) (w : World) → Goes digest service (fail_wedos_dns_operation id e) w
  unfolding fail_wedos_dns_operation
  fail-Goes id e w =
      let open_states =
        created ∷ row_added ∷ committed ∷ propagated ∷ cleanup_requested ∷ deleted ∷ [] in
      get-bind digest service id _ w λ o h. unless-Goes (is_final o.state) o _ w (
        bind-Moves digest service (record_safe_error id e)
          (λ done. update_state id open_states failed >> get_operation id) w
          (fault-Goes digest service id e w)
          λ done k.
            bind-Moves digest service (update_state id open_states failed)
              (λ done. get_operation id) _ (update-Goes digest service id open_states failed _ refl)
              λ done l. get-Goes digest service id _)

  pub mark_cleanup-Goes :
      (id : ℕ) (w : World) → Goes digest service (mark_cleanup_propagated_without_value id) w
  unfolding mark_cleanup_propagated_without_value
  mark_cleanup-Goes id w =
      let delete_it = update_state id (cleanup_requested ∷ []) deleted in
      let end_it = update_state id (deleted ∷ []) cleanup_propagated in
      get-bind digest service id _ w λ o h. unless-Goes (rank o.state == 6) o _ w (
        bind-Moves digest service (if rank o.state == 4 then delete_it else return tt)
          (λ done. end_it >> get_operation id) w
          (when-Goes (rank o.state == 4) delete_it w
            (update-Goes digest service id (cleanup_requested ∷ []) deleted w refl))
          λ done k.
            bind-Moves digest service end_it (λ done. get_operation id) _
              (update-Goes digest service id (deleted ∷ []) cleanup_propagated _ refl)
              λ done l. get-Goes digest service id _)

  recovered-Goes :
      (id : ℕ) (found : Option Text) (w : World)
      → Goes digest service (recovered digest service id found) w
  recovered-Goes id none w = mark_cleanup-Goes id w
  recovered-Goes id (some []) w = mark_cleanup-Goes id w
  recovered-Goes id (some (c ∷ value)) w =
      cleanup_dns_operation-Goes digest service id (c ∷ value) w

  find_txt-Goes :
      (o : Operation) (w : World)
      → Goes digest service (find_authoritative_txt_by_digest digest service o) w
  unfolding find_authoritative_txt_by_digest
  find_txt-Goes o w =
      let call = txt_values o.zone o.record_name in
      bind-Moves digest service (ask call (λ calls. service.values calls call)) _ w
        (ask-Moves digest service call (λ calls. service.values calls call) w tt)
        λ values h. Moves-refl digest service _

  without_row-Goes :
      (id : ℕ) (o : Operation) (w : World) → Goes digest service (without_row digest service id o) w
  unfolding without_row
  without_row-Goes id o w = elim (Bool-cases (rank o.state == 0)) [
    | inl e ↦ rw e (fail-Goes id _ w)
    | inr e ↦ elim (Bool-cases (is_in (cleanup_requested ∷ deleted ∷ []) o.state)) [
      | inl f ↦
          rw (e, f)
            (bind-Moves digest service (find_authoritative_txt_by_digest digest service o) _ w
              (find_txt-Goes o w) λ found h. recovered-Goes id found _)
      | inr f ↦ rw (e, f) (Moves-refl digest service w)
    ]
  ]

  pub recover_from-Goes :
      (id : ℕ) (o : Operation) (found : Option WdnsRow) (w : World)
      → Goes digest service (recover_from digest service id o found) w
  unfolding with_owned
  recover_from-Goes id o none w = without_row-Goes id o w
  recover_from-Goes id o (some row) w =
      require-bind digest service (not (rank o.state == 5)) _ _ w λ e.
        require-bind digest service (agrees_with_id o row) _ _ w
          λ f. cleanup_dns_operation-Goes digest service id row.rdata w

  pub by_ownership-Goes :
      (id : ℕ) (w : World)
      → Goes digest service (cleanup_dns_operation_by_ownership digest service id) w
  unfolding cleanup_dns_operation_by_ownership
  by_ownership-Goes id w = get-bind digest service id _ w λ o h.
      unless-Goes (rank o.state == 6) o _ w (
        bind-Moves digest service (ask_rows digest service o.zone) _ w
          (ask-Moves digest service (rows_list o.zone) (λ calls. service.rows calls o.zone) w tt)
          λ rows k.
            bind-Moves digest service (single (filter (is_candidate digest service o) rows)) _ _
              (single-Goes digest service _ _) λ owned l. recover_from-Goes id o owned _)

  pub recover-Goes :
      (id : ℕ) (value : Text) (w : World)
      → Goes digest service (recover_dns_operation digest service id value) w
  unfolding recover_dns_operation
  recover-Goes id value w =
      let add_it = discard (add_txt_row digest service id value) in
      let commit_it = discard (commit_dns_operation digest service id value) in
      let propagate_it = discard (mark_propagated digest service id value none) in
      get-bind digest service id _ w λ o h.
        bind-Moves digest service
          (if is_in (created ∷ row_added ∷ []) o.state then add_it else return tt) _ w
          (when-Goes _ add_it w (
            discard-Goes (add_txt_row digest service id value) w
              (add_txt_row-Goes digest service id value w)))
          λ done k. get-bind digest service id _ _ λ p l.
            bind-Moves digest service (if rank p.state == 1 then commit_it else return tt) _ _
              (when-Goes _ commit_it _ (
                discard-Goes (commit_dns_operation digest service id value) _
                  (commit_dns_operation-Goes digest service id value _)))
              λ done m. get-bind digest service id _ _ λ q n.
                bind-Moves digest service (if rank q.state == 2 then propagate_it else return tt)
                  (λ done. get_operation id) _
                  (when-Goes _ propagate_it _ (
                    discard-Goes (mark_propagated digest service id value none) _
                      (mark_propagated-Goes digest service id value none _)))
                  λ done r. get-Goes digest service id _
