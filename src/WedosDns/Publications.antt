-- ===== src/WedosDns/Publications.antt =====
-- The way of a record to the name servers keeps to its life
-- (apps/server/src/tls/wedos-dns-operation.ts).
use kajovo_cml.Prelude.{
  ℕ, true, ◌==◌, nat_eq, nat_beq_iff, Option, none, some, List, [], ◌∷◌, refl, inl, inr, Bool-cases,
}
use kajovo_cml.Security.Text.{codes}
use kajovo_cml.WedosDns.Names.{Text, upper_text}
use kajovo_cml.WedosDns.Store.{
  State, created, row_added, committed, propagated, rank, is_in, Operation, WdnsRow, Snapshot, Call,
  row_add, domain_commit, resolve_txt, Service, World, M, ◌>>◌, change, get_operation,
  record_attempt, update_state, try_recorded,
}
use kajovo_cml.WedosDns.Rows.{entered, list_exact_owned_row, or_throw, is_own_row, command}
use kajovo_cml.WedosDns.Publish.{
  with_row, add_unless_owned, add_step, add_txt_row, commit_step, commit_dns_operation,
  propagate_step, mark_propagated,
}
use kajovo_cml.WedosDns.Lifecycle.{Reach, here, next, add}
use kajovo_cml.WedosDns.Moves.{IsOwned, Moves, Moves-refl, changed-Moves, ask-Moves, bind-Moves}
use kajovo_cml.WedosDns.Steps.{
  rank_inj, Goes, get-Goes, get-bind, attempt-Goes, require-bind, update-Goes, try-Goes, list-Goes,
}

with_row-Reach : (row_id : Text) (o : Operation) → Reach o (with_row row_id o)
with_row-Reach row_id o = elim (Bool-cases (rank o.state == 0)) [
  | inl e ↦
      rw e
        (next here (add o row_id (rank_inj o.state created ((nat_beq_iff (rank o.state) 0).0 e))))
  | inr e ↦ rw e here
]

module _ (digest : Text → Text) (service : Service) where
  pub command-Goes :
      (call : Call) (w : World)
      → IsOwned digest service w.operations w.calls call
      → Goes digest service (command digest service call) w
  command-Goes call w own = ask-Moves digest service call (λ calls. service.done calls call) w own

  -- A step under the handler, with the attempt noted in front of it.
  pub attempted-Goes :
      {A : Type 0} (id : ℕ) (m : M A) (w : World)
      → ((v : World) → Moves digest service w v → Goes digest service m v)
      → Goes digest service (record_attempt id >> try_recorded id m) w
  attempted-Goes id m w step =
      let noted = attempt-Goes digest service id w in
      bind-Moves digest service (record_attempt id) (λ done. try_recorded id m) w noted
        (λ done h. try-Goes digest service id m _ (step _ noted))

  -- An operation that returns a row which is past it, and refuses one which is not before it.
  pub entry-Goes :
      (past before : List State) (message : Text) (m : M Operation) (o : Operation) (w : World)
      → Goes digest service m w
      → Goes digest service (entered past before message m o) w
  unfolding entered
  entry-Goes past before message m o w h = elim (Bool-cases (is_in past o.state)) [
    | inl e ↦ rw e (Moves-refl digest service w)
    | inr e ↦ elim (Bool-cases (is_in before o.state)) [
      | inl f ↦ rw (e, f) h
      | inr f ↦ rw (e, f) (Moves-refl digest service w)
    ]
  ]

  add_unless_owned-Goes :
      (o : Operation) (value : Text) (found : Option WdnsRow) (w : World)
      → Goes digest service (add_unless_owned digest service o value found) w
  add_unless_owned-Goes o value none w =
      bind-Moves digest service
        (command digest service (row_add o.zone o.record_name value o.author_comment 300)) _ w
        (command-Goes _ w tt) (λ done h. list-Goes digest service o value _)
  add_unless_owned-Goes o value (some row) w = Moves-refl digest service w

  or_throw-Goes :
      (found : Option WdnsRow) (message : Text) (w : World)
      → Goes digest service (or_throw found message) w
  or_throw-Goes none message w = Moves-refl digest service w
  or_throw-Goes (some row) message w = Moves-refl digest service w

  add_step-Goes :
      (id : ℕ) (o : Operation) (value : Text) (w : World)
      → Goes digest service (add_step digest service id o value) w
  unfolding add_step
  add_step-Goes id o value w =
      bind-Moves digest service (list_exact_owned_row digest service o value) _ w
        (list-Goes digest service o value w)
        λ owned h.
          bind-Moves digest service (add_unless_owned digest service o value owned) _ _
            (add_unless_owned-Goes o value owned _)
            λ found h.
              bind-Moves digest service
                (or_throw found (codes "wedos_dns_owned_row_not_visible_after_add")) _ _
                (or_throw-Goes found _ _)
                λ row h.
                  bind-Moves digest service (change id (with_row (upper_text row.id)))
                    (λ done. get_operation id) _
                    (changed-Moves digest service id (with_row (upper_text row.id)) _
                      (λ p e. with_row-Reach _ p))
                    λ done h. get-Goes digest service id _

  pub add_txt_row-Goes :
      (id : ℕ) (value : Text) (w : World)
      → Goes digest service (add_txt_row digest service id value) w
  unfolding add_txt_row
  add_txt_row-Goes id value w = get-bind digest service id _ w λ o e.
      entry-Goes _ _ _ _ o w (
        attempted-Goes id (add_step digest service id o value) w
          (λ v m. add_step-Goes id o value v))

  commit_step-Goes :
      (id : ℕ) (o : Operation) (value : Text) (w : World)
      → Goes digest service (commit_step digest service id o value) w
  unfolding commit_step
  commit_step-Goes id o value w =
      bind-Moves digest service (list_exact_owned_row digest service o value) _ w
        (list-Goes digest service o value w)
        λ owned h. require-bind digest service (is_own_row o owned) _ _ _ λ own.
          bind-Moves digest service (command digest service (domain_commit o.zone)) _ _
            (command-Goes _ _ tt)
            λ done h.
              bind-Moves digest service (update_state id (row_added ∷ []) committed)
                (λ done. get_operation id) _
                (update-Goes digest service id (row_added ∷ []) committed _ refl)
                λ done h. get-Goes digest service id _

  pub commit_dns_operation-Goes :
      (id : ℕ) (value : Text) (w : World)
      → Goes digest service (commit_dns_operation digest service id value) w
  unfolding commit_dns_operation
  commit_dns_operation-Goes id value w = get-bind digest service id _ w λ o e.
      entry-Goes _ _ _ _ o w (
        attempted-Goes id (commit_step digest service id o value) w
          (λ v m. commit_step-Goes id o value v))

  propagate_step-Goes :
      (id : ℕ) (o : Operation) (value : Text) (baseline : Option Snapshot) (w : World)
      → Goes digest service (propagate_step digest service id o value baseline) w
  unfolding propagate_step
  propagate_step-Goes id o value baseline w =
      bind-Moves digest service
        (command digest service (resolve_txt o.zone o.record_name value true baseline)) _ w
        (command-Goes _ w tt)
        λ done h.
          bind-Moves digest service (update_state id (committed ∷ []) propagated)
            (λ done. get_operation id) _
            (update-Goes digest service id (committed ∷ []) propagated _ refl)
            λ done h. get-Goes digest service id _

  pub mark_propagated-Goes :
      (id : ℕ) (value : Text) (baseline : Option Snapshot) (w : World)
      → Goes digest service (mark_propagated digest service id value baseline) w
  unfolding mark_propagated
  mark_propagated-Goes id value baseline w = get-bind digest service id _ w λ o e.
      entry-Goes _ _ _ _ o w (
        attempted-Goes id (propagate_step digest service id o value baseline) w
          (λ v m. propagate_step-Goes id o value baseline v))
