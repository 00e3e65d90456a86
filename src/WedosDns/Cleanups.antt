-- ===== src/WedosDns/Cleanups.antt =====
-- The way of a record back keeps to its life, and deletes no row but the operation's own
-- (apps/server/src/tls/wedos-dns-operation.ts).
use kajovo_cml.Prelude.{
  ℕ, ◌≤◌, false, not, ◌==◌, nat_eq, Option, none, some, is_some, [], ◌∷◌, ◌≡◌, refl, arith, inl,
  inr, Bool-cases, Option-cases, ok,
}
use kajovo_cml.Security.Text.{codes}
use kajovo_cml.WedosDns.Names.{Text, upper_text}
use kajovo_cml.WedosDns.Store.{
  row_added, committed, propagated, cleanup_requested, deleted, cleanup_propagated, rank, is_in,
  Operation, WdnsRow, Snapshot, rows_list, row_delete, domain_commit, resolve_txt, observe_dns,
  Service, World, M, ◌>>=◌, ◌>>◌, require, get_operation, update_state,
}
use kajovo_cml.WedosDns.Rows.{list_exact_owned_row, is_own_row, command, observe}
use kajovo_cml.WedosDns.Cleanup.{
  request_cleanup, delete_owned, delete_own_row, delete_step, confirm_step, requested, removed,
  confirmed, cleanup_step, cleanup_dns_operation,
}
use kajovo_cml.WedosDns.Lifecycle.{here, Evolves, Evolves-trans}
use kajovo_cml.WedosDns.Moves.{
  Moves, Moves-refl, ask-Moves, bind-Moves, Post, bind-Post, Post-ok, OwnsRow-Reach, later_row,
}
use kajovo_cml.WedosDns.Steps.{Goes, get-Goes, get-bind, require-bind, update-Goes, list-Goes}
use kajovo_cml.WedosDns.Owned.{exact-OwnsRow, list_exact-world}
use kajovo_cml.WedosDns.Publications.{command-Goes, attempted-Goes, entry-Goes}

-- The code has read the row, which may have gone on since.
abbrev pub Knows : ℕ → Operation → World → Type 0
Knows id o w = Evolves (some o) (w.operations id)

module _ (digest : Text → Text) (service : Service) where
  pub Knows-Moves :
      (id : ℕ) (o : Operation) (v w : World)
      → Knows id o v
      → Moves digest service v w
      → Knows id o w
  Knows-Moves id o v w k m =
      Evolves-trans (some o) (v.operations id) (w.operations id) k (m.evolves id)

  get-Knows : (id : ℕ) (w : World) → Post (Knows id) (get_operation id w)
  unfolding get_operation
  get-Knows id w = elim (Option-cases (w.operations id)) [
    | inl e ↦ rw e tt
    | inr (o, e) ↦ rw e (rw e here)
  ]

  pub get-Post :
      {A : Type 0} (Q : A → World → Type 0) (id : ℕ) (f : Operation → M A) (w : World)
      → ((o : Operation) → w.operations id ≡ some o → Post Q (f o w))
      → Post Q ((get_operation id >>= f) w)
  unfolding get_operation
  get-Post Q id f w h = elim (Option-cases (w.operations id)) [
    | inl e ↦ rw e tt
    | inr (o, e) ↦ rw e (h o e)
  ]

  -- What follows the deletion.
  deleted-Goes :
      (o : Operation) (value : Text) (w : World)
      → Goes digest service
          (do
            after_delete ← list_exact_owned_row digest service o value
            require
                (not (is_some after_delete))
                (codes "wedos_dns_owned_row_still_present_after_delete")
            command digest service (domain_commit o.zone))
          w
  deleted-Goes o value w =
      bind-Moves digest service (list_exact_owned_row digest service o value) _ w
        (list-Goes digest service o value w)
        λ row h.
          require-bind digest service _ _ (command digest service (domain_commit o.zone)) _
            λ gone. command-Goes digest service _ _ tt

  delete_own_row-Goes :
      (id : ℕ) (o : Operation) (value : Text) (w : World)
      → Knows id o w
      → 4 ≤ rank o.state
      → Goes digest service (delete_own_row digest service o value) w
  unfolding delete_own_row
  delete_own_row-Goes id o value w known late =
      bind-Moves digest service (list_exact_owned_row digest service o value) _ w
        (list-Goes digest service o value w) at_row
    where
      after_deletion : M (Unit {0})
      after_deletion = do
        after_delete ← list_exact_owned_row digest service o value
        require (not (is_some after_delete))
            (codes "wedos_dns_owned_row_still_present_after_delete")
        command digest service (domain_commit o.zone)

      deletion : WdnsRow → M (Unit {0})
      deletion row =
          command digest service (row_delete o.zone (upper_text (upper_text row.id)))
          >> after_deletion

      listed : World
      listed = (list_exact_owned_row digest service o value w).1

      at_row :
          (owned : Option WdnsRow)
          → (list_exact_owned_row digest service o value w).0 ≡ ok owned
          → Goes digest service (delete_owned digest service o value owned) listed
      at_row none h = Moves-refl digest service listed
      at_row (some row) h =
          require-bind digest service (is_own_row o (some row))
            (codes "wedos_dns_cleanup_row_ownership_mismatch") (deletion row) listed
            λ own.
              bind-Moves digest service
                (command digest service (row_delete o.zone (upper_text (upper_text row.id))))
                (λ done. after_deletion) listed
                (command-Goes digest service (row_delete o.zone (upper_text (upper_text row.id)))
                  listed
                  (rw (list_exact-world digest service o value w row h) (
                    let (p, there, reach) = later_row digest service o (w.operations id) known in
                    (
                      id,
                      p,
                      there,
                      OwnsRow-Reach digest service o.zone (upper_text (upper_text row.id))
                          (rows_list o.zone ∷ w.calls) reach
                          (exact-OwnsRow digest service o value w row late h own),
                    ))))
                λ done k.
                  deleted-Goes o value
                    (command digest service (row_delete o.zone (upper_text (upper_text row.id)))
                      listed).1

  request_cleanup-Goes :
      (id : ℕ) (o : Operation) (value : Text) (w : World)
      → Goes digest service (request_cleanup digest service id o value) w
  unfolding request_cleanup
  request_cleanup-Goes id o value w =
      bind-Moves digest service (observe digest service o value) _ w
        (ask-Moves digest service (observe_dns o.zone o.record_name value)
          (λ calls. service.observed calls (observe_dns o.zone o.record_name value)) w tt)
        λ baseline h.
          bind-Moves digest service
            (update_state id (row_added ∷ propagated ∷ committed ∷ []) cleanup_requested) _ _
            (update-Goes digest service id (row_added ∷ propagated ∷ committed ∷ [])
              cleanup_requested _ refl)
            λ done k. get-bind digest service id _ _ λ p e. Moves-refl digest service _

  -- What a part of the cleanup hands on is what the row holds.
  abbrev Hands : ℕ → Operation × Option Snapshot → World → Type 0
  Hands id p w = Knows id p.0 w

  request_cleanup-Hands :
      (id : ℕ) (o : Operation) (value : Text) (w : World)
      → Post (Hands id) (request_cleanup digest service id o value w)
  unfolding request_cleanup get_operation
  request_cleanup-Hands id o value w =
      bind-Post (Hands id) (observe digest service o value) _ w λ baseline v.
        bind-Post (Hands id)
          (update_state id (row_added ∷ propagated ∷ committed ∷ []) cleanup_requested) _ v
          λ done u. get-Post (Hands id) id _ u λ p e. rw e here

  requested-Hands :
      (id : ℕ) (o : Operation) (value : Text) (w : World)
      → Knows id o w
      → Post (Hands id) (requested digest service id o value w)
  requested-Hands id o value w known =
      elim (Bool-cases (is_in (row_added ∷ propagated ∷ committed ∷ []) o.state)) [
        | inl e ↦ rw e (request_cleanup-Hands id o value w)
        | inr e ↦ rw e known
      ]

  requested-Goes :
      (id : ℕ) (o : Operation) (value : Text) (w : World)
      → Goes digest service (requested digest service id o value) w
  requested-Goes id o value w =
      elim (Bool-cases (is_in (row_added ∷ propagated ∷ committed ∷ []) o.state)) [
        | inl e ↦ rw e (request_cleanup-Goes id o value w)
        | inr e ↦ rw e (Moves-refl digest service w)
      ]

  delete_step-Goes :
      (id : ℕ) (o : Operation) (value : Text) (w : World)
      → Knows id o w
      → 4 ≤ rank o.state
      → Goes digest service (delete_step digest service id o value) w
  unfolding delete_step
  delete_step-Goes id o value w known late =
      bind-Moves digest service (delete_own_row digest service o value)
        (λ done. update_state id (cleanup_requested ∷ []) deleted >> get_operation id) w
        (delete_own_row-Goes id o value w known late)
        λ done h.
          bind-Moves digest service (update_state id (cleanup_requested ∷ []) deleted)
            (λ done. get_operation id) _
            (update-Goes digest service id (cleanup_requested ∷ []) deleted _ refl)
            λ done k. get-Goes digest service id _

  removed-Goes :
      (id : ℕ) (o : Operation) (value : Text) (w : World)
      → Knows id o w
      → Goes digest service (removed digest service id o value) w
  removed-Goes id o value w known = elim (Bool-cases (rank o.state == 4)) [
    | inl e ↦ rw e (delete_step-Goes id o value w known (ground arith))
    | inr e ↦ rw e (Moves-refl digest service w)
  ]

  confirmed-Goes :
      (id : ℕ) (o : Operation) (value : Text) (baseline : Option Snapshot) (w : World)
      → Goes digest service (confirmed digest service id o value baseline) w
  unfolding confirm_step
  confirmed-Goes id o value baseline w = elim (Bool-cases (rank o.state == 5)) [
    | inl e ↦ rw e (
        bind-Moves digest service
          (command digest service (resolve_txt o.zone o.record_name value false baseline))
          (λ done. update_state id (deleted ∷ []) cleanup_propagated) w
          (command-Goes digest service _ w tt)
          λ done h. update-Goes digest service id (deleted ∷ []) cleanup_propagated _ refl)
    | inr e ↦ rw e (Moves-refl digest service w)
  ]

  cleanup_step-Goes :
      (id : ℕ) (o : Operation) (value : Text) (w : World)
      → Knows id o w
      → Goes digest service (cleanup_step digest service id o value) w
  unfolding cleanup_step
  cleanup_step-Goes id o value w known =
      bind-Moves digest service (requested digest service id o value) _ w
        (requested-Goes id o value w)
        λ p h.
          bind-Moves digest service (removed digest service id (p.0) value) _ _
            (removed-Goes id (p.0) value _ (
              Post-ok (Hands id) (requested digest service id o value w) p
                (requested-Hands id o value w known) h))
            λ q k.
              bind-Moves digest service (confirmed digest service id q value (p.1))
                (λ done. get_operation id) _ (confirmed-Goes id q value (p.1) _)
                λ done l. get-Goes digest service id _

  pub cleanup_dns_operation-Goes :
      (id : ℕ) (value : Text) (w : World)
      → Goes digest service (cleanup_dns_operation digest service id value) w
  unfolding cleanup_dns_operation
  cleanup_dns_operation-Goes id value w = get-bind digest service id _ w λ o e.
      entry-Goes digest service _ _ _ _ o w (
        attempted-Goes digest service id (cleanup_step digest service id o value) w
          (λ v m. cleanup_step-Goes id o value v (Knows-Moves id o w v (rw e here) m)))
