-- ===== src/WedosDns/Returns.antt =====
-- What the operations of apps/server/src/tls/wedos-dns-operation.ts have done when they return.
use kajovo_cml.Prelude.{
  ℕ, true, false, ◌==◌, nat_eq, nat_beq_iff, Option, some, List, [], ◌∷◌, ◌≡◌, refl, ap, arith, inl,
  inr, Bool-cases, Option-cases, Result, ok, err,
}
use kajovo_cml.WedosDns.Names.{Text, Error}
use kajovo_cml.WedosDns.Store.{
  State, row_added, committed, propagated, cleanup_requested, deleted, cleanup_propagated, rank,
  is_in, Operation, Snapshot, domain_commit, resolve_txt, Service, World, M, ◌>>=◌, ◌>>◌, return,
  require, get_operation, record_attempt, record_safe_error, update_state, rethrown, settled,
  try_recorded,
}
use kajovo_cml.WedosDns.Rows.{entered, list_exact_owned_row, is_own_row, command, observe}
use kajovo_cml.WedosDns.Publish.{commit_step, commit_dns_operation, propagate_step, mark_propagated}
use kajovo_cml.WedosDns.Cleanup.{
  request_cleanup, delete_own_row, delete_step, confirm_step, requested, removed, confirmed,
  cleanup_step, cleanup_dns_operation,
}
use kajovo_cml.WedosDns.Moves.{Post, bind-Post}
use kajovo_cml.WedosDns.Steps.{rank_inj}

-- A later step may use what is known behind an earlier one.
then-Post :
    {A B : Type 0} (P : A → World → Type 0) (Q : B → World → Type 0) (m : M A) (f : A → M B)
    (w : World)
    → Post P (m w)
    → ((a : A) (v : World) → P a v → Post Q (f a v))
    → Post Q ((m >>= f) w)
then-Post {A} {B} P Q m f w first h = go (m w) first
  where
    go : (r : Result Error A × World) → Post P r → Post Q (◌>>=◌ (λ v. r) f w)
    go (ok a, v) p = h a v p
    go (err e, v) p = tt

try-Post :
    {A : Type 0} (Q : A → World → Type 0) (id : ℕ) (m : M A) (w : World)
    → Post Q (m w)
    → Post Q (try_recorded id m w)
try-Post {A} Q id m w h = go (m w) h
  where
    rethrow : (e : Error) (r : Result Error (Unit {0}) × World) → Post Q (rethrown {A = A} e r)
    rethrow e (ok d, v) = tt
    rethrow e (err f, v) = tt

    go : (r : Result Error A × World) → Post Q r → Post Q (settled id r)
    go (ok a, v) h = h
    go (err e, v) h = rethrow e (record_safe_error id e v)

-- What an operation returns is past it, or comes from its step.
entry-Post :
    (Q : Operation → World → Type 0) (id : ℕ) (past before : List State) (message : Text)
    (step : Operation → M Operation) (w : World)
    → ((o : Operation) (v : World) → is_in past o.state ≡ true → Q o v)
    → ((o : Operation) (v : World) → is_in before o.state ≡ true → Post Q (step o v))
    → Post Q (
        (get_operation id >>= λ o.
        entered past before message (record_attempt id >> try_recorded id (step o)) o)
          w)
unfolding entered
entry-Post Q id past before message step w old new = bind-Post Q (get_operation id) _ w λ o v.
    elim (Bool-cases (is_in past o.state)) [
      | inl e ↦ rw e (old o v e)
      | inr e ↦ elim (Bool-cases (is_in before o.state)) [
        | inl f ↦
            rw (e, f)
              (bind-Post Q (record_attempt id) (λ done. try_recorded id (step o)) v
                λ done u. try-Post Q id (step o) u (new o u f))
        | inr f ↦ rw (e, f) tt
      ]
    ]

abbrev AtState : ℕ → State → Unit {0} → World → Type 0
AtState id s done w = (o : Operation) × (w.operations id ≡ some o) × (o.state ≡ s)

update-Post :
    (id : ℕ) (expected : List State) (s : State) (w : World)
    → Post (AtState id s) (update_state id expected s w)
unfolding update_state get_operation
update-Post id expected s w = elim (Option-cases (w.operations id)) [
  | inl e ↦ rw e tt
  | inr (o, e) ↦ elim (Bool-cases (is_in expected o.state)) [
    | inl f ↦ rw (e, f) (record o { state = s }, ground arith, refl)
    | inr f ↦ elim (Bool-cases (rank o.state == rank s)) [
      | inl g ↦ rw (e, f, g) (o, e, rank_inj o.state s ((nat_beq_iff (rank o.state) (rank s)).0 g))
      | inr g ↦ rw (e, f, g) tt
    ]
  ]
]

-- The state that is read behind an update.
abbrev InState : State → Operation → World → Type 0
InState s o w = o.state ≡ s

read_state-Post :
    (id : ℕ) (s : State) (done : Unit {0}) (w : World)
    → AtState id s done w
    → Post (InState s) (get_operation id w)
unfolding get_operation
read_state-Post id s done w (o, e, same) = rw e same

updated-Post :
    (id : ℕ) (expected : List State) (s : State) (w : World)
    → Post (InState s) ((update_state id expected s >> get_operation id) w)
updated-Post id expected s w =
    then-Post (AtState id s) (InState s) (update_state id expected s) (λ done. get_operation id) w
      (update-Post id expected s w) (read_state-Post id s)

abbrev pub Within : List State → Operation → World → Type 0
Within states o w = is_in states o.state ≡ true

InState-Within :
    (states : List State) (s : State)
    → is_in states s ≡ true
    → (r : Result Error Operation × World) → Post (InState s) r
    → Post (Within states) r
InState-Within states s h (ok o, w) same = rw same h
InState-Within states s h (err e, w) same = tt

module _ (digest : Text → Text) (service : Service) where
  commit-returns :
      (id : ℕ) (value : Text) (w : World)
      → Post
          (Within (committed ∷ propagated ∷ cleanup_requested ∷ deleted ∷ cleanup_propagated ∷ []))
          (commit_dns_operation digest service id value w)
  unfolding commit_dns_operation commit_step
  commit-returns id value w =
      let late = committed ∷ propagated ∷ cleanup_requested ∷ deleted ∷ cleanup_propagated ∷ [] in
      entry-Post (Within late) id _ _ _ (λ o. commit_step digest service id o value) w (λ o v e. e)
        λ o v e.
          bind-Post (Within late) (list_exact_owned_row digest service o value) _ v λ owned v.
            bind-Post (Within late) (require (is_own_row o owned) _) _ v λ own v.
              bind-Post (Within late) (command digest service (domain_commit o.zone)) _ v λ done v.
                InState-Within late committed refl _ (updated-Post id (row_added ∷ []) committed v)

  propagate-returns :
      (id : ℕ) (value : Text) (baseline : Option Snapshot) (w : World)
      → Post
          (Within (propagated ∷ cleanup_requested ∷ deleted ∷ cleanup_propagated ∷ []))
          (mark_propagated digest service id value baseline w)
  unfolding mark_propagated propagate_step
  propagate-returns id value baseline w =
      let late = propagated ∷ cleanup_requested ∷ deleted ∷ cleanup_propagated ∷ [] in
      entry-Post (Within late) id _ _ _ (λ o. propagate_step digest service id o value baseline) w
        (λ o v e. e)
        λ o v e.
          bind-Post (Within late)
            (command digest service (resolve_txt o.zone o.record_name value true baseline)) _ v
            λ done v.
              InState-Within late propagated refl _ (updated-Post id (committed ∷ []) propagated v)

  -- The states between the parts of a cleanup.
  abbrev Requested : Operation × Option Snapshot → World → Type 0
  Requested p w = is_in (cleanup_requested ∷ deleted ∷ []) (p.0.state) ≡ true

  requested-Post :
      (id : ℕ) (o : Operation) (value : Text) (w : World)
      → is_in (row_added ∷ propagated ∷ committed ∷ cleanup_requested ∷ deleted ∷ []) o.state ≡ true
      → Post Requested (requested digest service id o value w)
  unfolding request_cleanup
  requested-Post id o value w before =
      elim (Bool-cases (is_in (row_added ∷ propagated ∷ committed ∷ []) o.state)) [
        | inr e ↦ rw e (ground arith)
        | inl e ↦ rw e (
            bind-Post Requested (observe digest service o value) _ w λ baseline v.
              then-Post (AtState id cleanup_requested) Requested
                (update_state id (row_added ∷ propagated ∷ committed ∷ []) cleanup_requested) _ v
                (update-Post id (row_added ∷ propagated ∷ committed ∷ []) cleanup_requested v)
                λ done v at.
                  then-Post (InState cleanup_requested) Requested (get_operation id)
                    (λ p. return (p, some baseline)) v
                    (read_state-Post id cleanup_requested done v at) λ p v same. rw same refl)
      ]

  removed-Post :
      (id : ℕ) (o : Operation) (value : Text) (w : World)
      → is_in (cleanup_requested ∷ deleted ∷ []) o.state ≡ true
      → Post (InState deleted) (removed digest service id o value w)
  unfolding delete_step
  removed-Post id o value w before = elim (Bool-cases (rank o.state == 4)) [
    | inl e ↦ rw e (
        bind-Post (InState deleted) (delete_own_row digest service o value) _ w
          λ done v. updated-Post id (cleanup_requested ∷ []) deleted v)
    | inr e ↦ rw e (rank_inj o.state deleted (ground arith))
  ]

  confirmed-Post :
      (id : ℕ) (o : Operation) (value : Text) (baseline : Option Snapshot) (w : World)
      → o.state ≡ deleted
      → Post (AtState id cleanup_propagated) (confirmed digest service id o value baseline w)
  unfolding confirm_step
  confirmed-Post id o value baseline w same = elim (Bool-cases (rank o.state == 5)) [
    | inl e ↦ rw e (
        bind-Post (AtState id cleanup_propagated)
          (command digest service (resolve_txt o.zone o.record_name value false baseline))
          (λ done. update_state id (deleted ∷ []) cleanup_propagated) w
          λ done v. update-Post id (deleted ∷ []) cleanup_propagated v)
    | inr e ↦ absurd (ground (arith, ap rank same))
  ]

  cleanup-returns :
      (id : ℕ) (value : Text) (w : World)
      → Post (Within (cleanup_propagated ∷ [])) (cleanup_dns_operation digest service id value w)
  unfolding cleanup_dns_operation cleanup_step confirm_step
  cleanup-returns id value w =
      let done_state = cleanup_propagated ∷ [] in
      entry-Post (Within done_state) id _ _ _ (λ o. cleanup_step digest service id o value) w
        (λ o v e. e)
        λ o v e.
          then-Post Requested (Within done_state) (requested digest service id o value) _ v
            (requested-Post id o value v e)
            λ p v at.
              then-Post (InState deleted) (Within done_state)
                (removed digest service id (p.0) value) _ v (removed-Post id (p.0) value v at)
                λ q v same.
                  then-Post (AtState id cleanup_propagated) (Within done_state)
                    (confirmed digest service id q value (p.1)) (λ done. get_operation id) v
                    (confirmed-Post id q value (p.1) v same)
                    λ done v at.
                      InState-Within done_state cleanup_propagated refl _
                        (read_state-Post id cleanup_propagated done v at)

  -- Whatever the provider answers: what `commitDnsOperation` returns is committed or further on its way,
  -- what `markPropagated` returns is propagated or further, and what `cleanupDnsOperation` returns has
  -- been cleaned up; no failed or blocked operation is returned.
  pub operations_returned :
      (id : ℕ) (value : Text) (baseline : Option Snapshot) (u v w : World)
      → Post
          (Within (committed ∷ propagated ∷ cleanup_requested ∷ deleted ∷ cleanup_propagated ∷ []))
          (commit_dns_operation digest service id value u)
        × Post
            (Within (propagated ∷ cleanup_requested ∷ deleted ∷ cleanup_propagated ∷ []))
            (mark_propagated digest service id value baseline v)
        × Post (Within (cleanup_propagated ∷ [])) (cleanup_dns_operation digest service id value w)
  operations_returned id value baseline u v w =
      (commit-returns id value u, propagate-returns id value baseline v, cleanup-returns id value w)
