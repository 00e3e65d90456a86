-- ===== src/WedosDns/Steps.antt =====
-- Each step of apps/server/src/tls/wedos-dns-operation.ts lets rows go on only as their life allows.
use kajovo_cml.Prelude.{
  ℕ, zero, suc, ◌+◌, Bool, true, false, ◌==◌, nat_eq, nat_beq_iff, text_eq, none, some, List, [],
  ◌∷◌, ◌≡◌, refl, sym, ap, ◌∙◌, arith, inl, inr, all, filter, Bool-cases, Option-cases, Result, ok,
  err,
}
use kajovo_cml.WedosDns.Names.{Text, Error}
use kajovo_cml.WedosDns.Store.{
  State, created, row_added, committed, propagated, cleanup_requested, deleted, cleanup_propagated,
  failed, blocked, rank, is_in, final_states, Operation, WdnsRow, rows_list, Service, World, M,
  ◌>>=◌, ◌>>◌, require, attempted, faulted, advanced, already_there, matches, get_operation,
  record_attempt, record_safe_error, update_state, rethrown, settled, try_recorded,
}
use kajovo_cml.WedosDns.Rows.{is_exact, single, ask_rows, list_exact_owned_row}
use kajovo_cml.WedosDns.Lifecycle.{may, Reach, here, next, move, note}
use kajovo_cml.WedosDns.Moves.{Moves, Moves-refl, Moves-trans, changed-Moves, ask-Moves, bind-Moves}

abbrev unrank : ℕ → State
unrank zero = created
unrank (suc zero) = row_added
unrank (suc (suc zero)) = committed
unrank (suc (suc (suc zero))) = propagated
unrank (suc (suc (suc (suc zero)))) = cleanup_requested
unrank (suc (suc (suc (suc (suc zero))))) = deleted
unrank (suc (suc (suc (suc (suc (suc zero)))))) = cleanup_propagated
unrank (suc (suc (suc (suc (suc (suc (suc zero))))))) = failed
unrank (suc (suc (suc (suc (suc (suc (suc (suc n)))))))) = blocked

unrank-rank : (s : State) → unrank (rank s) ≡ s
unrank-rank created = refl
unrank-rank row_added = refl
unrank-rank committed = refl
unrank-rank propagated = refl
unrank-rank cleanup_requested = refl
unrank-rank deleted = refl
unrank-rank cleanup_propagated = refl
unrank-rank failed = refl
unrank-rank blocked = refl

pub rank_inj : (s t : State) → rank s ≡ rank t → s ≡ t
rank_inj s t h = sym (unrank-rank s) ∙ ap unrank h ∙ unrank-rank t

is_in-may :
    (expected : List State) (s t : State)
    → all (λ u. may u t) expected ≡ true
    → is_in expected s ≡ true
    → may s t ≡ true
is_in-may [] s t h i = cc
is_in-may (u ∷ expected) s t h i = elim (Bool-cases (rank u == rank s)) [
  | inl e ↦ rw (sym (rank_inj u s ((nat_beq_iff (rank u) (rank s)).0 e))) (ground arith)
  | inr e ↦ is_in-may expected s t (ground arith) (ground arith)
]

attempted-Reach : (o : Operation) → Reach o (attempted o)
attempted-Reach o = elim (Bool-cases (is_in final_states o.state)) [
  | inl e ↦ rw e here
  | inr e ↦ rw e (next here (note o (o.attempt_count + 1) none e))
]

faulted-Reach : (e : Error) (o : Operation) → Reach o (faulted e o)
faulted-Reach f o = elim (Bool-cases (is_in final_states o.state)) [
  | inl e ↦ rw e here
  | inr e ↦ rw e (next here (note o o.attempt_count _ e))
]

advanced-Reach :
    (expected : List State) (s : State)
    → all (λ u. may u s) expected ≡ true
    → (o : Operation) → Reach o (advanced expected s o)
advanced-Reach expected s allowed o = elim (Bool-cases (is_in expected o.state)) [
  | inl e ↦ rw e (next here (move o s (is_in-may expected o.state s allowed e)))
  | inr e ↦ rw e here
]

module _ (digest : Text → Text) (service : Service) where
  abbrev pub Goes : {A : Type 0} → M A → World → Type 0
  Goes m w = Moves digest service w (m w).1

  pub get-Goes : (id : ℕ) (w : World) → Goes (get_operation id) w
  unfolding get_operation
  get-Goes id w = elim (Option-cases (w.operations id)) [
    | inl e ↦ rw e (Moves-refl digest service w)
    | inr (o, e) ↦ rw e (Moves-refl digest service w)
  ]

  -- What is read is the row, and reading changes nothing.
  pub get-bind :
      {A : Type 0} (id : ℕ) (f : Operation → M A) (w : World)
      → ((o : Operation) → w.operations id ≡ some o → Goes (f o) w)
      → Goes (get_operation id >>= f) w
  unfolding get_operation
  get-bind id f w rest = elim (Option-cases (w.operations id)) [
    | inl e ↦ rw e (Moves-refl digest service w)
    | inr (o, e) ↦ rw e (rest o e)
  ]

  pub attempt-Goes : (id : ℕ) (w : World) → Goes (record_attempt id) w
  unfolding record_attempt
  attempt-Goes id w = changed-Moves digest service id attempted w (λ o e. attempted-Reach o)

  pub fault-Goes : (id : ℕ) (e : Error) (w : World) → Goes (record_safe_error id e) w
  unfolding record_safe_error
  fault-Goes id e w = changed-Moves digest service id (faulted e) w (λ o h. faulted-Reach e o)

  pub require-Goes : (test : Bool) (message : Text) (w : World) → Goes (require test message) w
  require-Goes true message w = Moves-refl digest service w
  require-Goes false message w = Moves-refl digest service w

  -- What stands behind a guard runs only where its test passes.
  pub require-bind :
      {A : Type 0} (test : Bool) (message : Text) (k : M A) (w : World)
      → (test ≡ true → Goes k w)
      → Goes (require test message >> k) w
  require-bind true message k w rest = rest refl
  require-bind false message k w rest = Moves-refl digest service w

  pub update-Goes :
      (id : ℕ) (expected : List State) (s : State) (w : World)
      → all (λ u. may u s) expected ≡ true
      → Goes (update_state id expected s) w
  unfolding update_state
  update-Goes id expected s w allowed = elim (Bool-cases (matches expected (w.operations id))) [
    | inl e ↦ rw e (
        changed-Moves digest service id (advanced expected s) w
          (λ p h. advanced-Reach expected s allowed p))
    | inr e ↦ rw e (get-bind id (already_there s) w (λ o h. require-Goes _ _ w))
  ]

  pub try-Goes : {A : Type 0} (id : ℕ) (m : M A) (w : World) → Goes m w → Goes (try_recorded id m) w
  try-Goes {A} id m w h = settle (m w) h
    where
      rethrow :
          (e : Error) (r : Result Error (Unit {0}) × World)
          → Moves digest service w r.1
          → Moves digest service w (rethrown {A = A} e r).1
      rethrow e (ok d, v) h = h
      rethrow e (err f, v) h = h

      settle :
          (r : Result Error A × World)
          → Moves digest service w r.1
          → Moves digest service w (settled id r).1
      settle (ok a, v) h = h
      settle (err e, v) h =
          rethrow e (record_safe_error id e v)
            (Moves-trans digest service w v _ h (fault-Goes id e v))

  pub single-Goes : (rows : List WdnsRow) (w : World) → Goes (single rows) w
  single-Goes [] w = Moves-refl digest service w
  single-Goes (row ∷ []) w = Moves-refl digest service w
  single-Goes (row ∷ other ∷ rows) w = Moves-refl digest service w

  pub list-Goes :
      (o : Operation) (value : Text) (w : World)
      → Goes (list_exact_owned_row digest service o value) w
  unfolding list_exact_owned_row
  list-Goes o value w =
      require-bind (digest value == o.value_digest) _
        (ask_rows digest service o.zone >>= λ rows. single (filter (is_exact o value) rows)) w
        (λ e.
          bind-Moves digest service (ask_rows digest service o.zone) _ w
            (ask-Moves digest service (rows_list o.zone) (λ calls. service.rows calls o.zone) w tt)
            (λ rows h. single-Goes _ _))
