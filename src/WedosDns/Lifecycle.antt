-- ===== src/WedosDns/Lifecycle.antt =====
-- The life of a DNS operation as its states are meant: what an operation of
-- apps/server/src/tls/wedos-dns-operation.ts may do to the row of one.
use kajovo_cml.Prelude.{
  ℕ, ◌≤◌, Bool, true, false, nat_eq, Option, none, some, [], ◌∷◌, ◌≡◌, refl, ap, ◌∙◌, arith,
}
use kajovo_cml.WedosDns.Names.{Text}
use kajovo_cml.WedosDns.Store.{
  State, created, row_added, committed, propagated, cleanup_requested, deleted, cleanup_propagated,
  failed, blocked, rank, is_in, final_states, Operation,
}

-- What may follow a state, apart from the addition of the row.
abbrev pub may : State → State → Bool
may created = is_in (failed ∷ [])
may row_added = is_in (committed ∷ cleanup_requested ∷ failed ∷ [])
may committed = is_in (propagated ∷ cleanup_requested ∷ failed ∷ [])
may propagated = is_in (cleanup_requested ∷ failed ∷ [])
may cleanup_requested = is_in (deleted ∷ failed ∷ [])
may deleted = is_in (cleanup_propagated ∷ failed ∷ [])
may cleanup_propagated = is_in []
may failed = is_in []
may blocked = is_in []

pub data Step : Operation → Operation → Type 0 where
  add :
      (o : Operation) (row_id : Text)
      → o.state ≡ created
      → Step o (record o { wedos_row_id = some row_id; state = row_added })
  move : (o : Operation) (s : State) → may o.state s ≡ true → Step o (record o { state = s })
  note :
      (o : Operation) (count : ℕ) (code : Option Text)
      → is_in final_states o.state ≡ false
      → Step o (record o { attempt_count = count; last_safe_error_code = code })

pub data Reach (o : Operation) : Operation → Type 0 where
  here : Reach o o
  next : {p q : Operation} → Reach o p → Step p q → Reach o q

pub Reach-trans : {o p q : Operation} → Reach o p → Reach p q → Reach o q
Reach-trans r here = r
Reach-trans r (next s st) = next (Reach-trans r s) st

-- A row that is there stays, and has gone on; one may be inserted.
abbrev pub Evolves : Option Operation → Option Operation → Type 0
Evolves none later = Unit {0}
Evolves (some o) none = ⊥
Evolves (some o) (some p) = Reach o p

pub Evolves-refl : (o : Option Operation) → Evolves o o
Evolves-refl none = tt
Evolves-refl (some o) = here

pub Evolves-trans : (o p q : Option Operation) → Evolves o p → Evolves p q → Evolves o q
Evolves-trans none p q h k = tt
Evolves-trans (some o) none q h k = absurd h
Evolves-trans (some o) (some p) none h k = absurd k
Evolves-trans (some o) (some p) (some q) h k = Reach-trans h k

-- What makes a row the operation's own never changes.
abbrev pub SameOwner : Operation → Operation → Type 0
SameOwner o p =
    (p.zone ≡ o.zone)
    × (p.record_name ≡ o.record_name)
    × (p.value_digest ≡ o.value_digest)
    × (p.author_comment ≡ o.author_comment)

Step-SameOwner : {o p : Operation} → Step o p → SameOwner o p
Step-SameOwner (add o row_id h) = (refl, refl, refl, refl)
Step-SameOwner (move o s h) = (refl, refl, refl, refl)
Step-SameOwner (note o n e h) = (refl, refl, refl, refl)

pub Reach-SameOwner : {o p : Operation} → Reach o p → SameOwner o p
Reach-SameOwner here = (refl, refl, refl, refl)
Reach-SameOwner (next r st) =
    let a = Reach-SameOwner r in
    let b = Step-SameOwner st in (b.0 ∙ a.0, b.1 ∙ a.1, b.2 ∙ a.2, b.3 ∙ a.3)

may-rank : (s t : State) → may s t ≡ true → rank s ≤ rank t
may-rank created t h = ground arith
may-rank row_added t h = ground arith
may-rank committed t h = ground arith
may-rank propagated t h = ground arith
may-rank cleanup_requested t h = ground arith
may-rank deleted t h = ground arith
may-rank cleanup_propagated t h = cc
may-rank failed t h = cc
may-rank blocked t h = cc

Step-rank : {o p : Operation} → Step o p → rank o.state ≤ rank p.state
Step-rank (add o row_id h) = rw h (omega arith)
Step-rank (move o s h) = may-rank o.state s h
Step-rank (note o n e h) = omega arith

-- The states come in their order.
pub Reach-rank : {o p : Operation} → Reach o p → rank o.state ≤ rank p.state
Reach-rank here = omega arith
Reach-rank (next r st) = omega (arith, Reach-rank r, Step-rank st)

Step-row : {o p : Operation} → Step o p → 1 ≤ rank o.state → p.wedos_row_id ≡ o.wedos_row_id
Step-row (add o row_id h) pos = absurd (omega (arith, ap rank h))
Step-row (move o s h) pos = refl
Step-row (note o n e h) pos = refl

-- Once a row is added its identifier stays.
pub Reach-row : {o p : Operation} → Reach o p → 1 ≤ rank o.state → p.wedos_row_id ≡ o.wedos_row_id
Reach-row here pos = refl
Reach-row (next r st) pos = Step-row st (omega (arith, Reach-rank r)) ∙ Reach-row r pos
