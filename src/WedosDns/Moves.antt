-- ===== src/WedosDns/Moves.antt =====
-- Worlds before and behind an `async` function of apps/server/src/tls/wedos-dns-operation.ts: rules for
-- the steps that such a function is made of.
use kajovo_cml.Prelude.{
  ℕ, ◌≤◌, ◌==◌, nat_eq, nat_beq_iff, Option, none, some, option_map, List, [], ◌∷◌, ◌≡◌, refl, sym,
  ap, ◌∙◌, subst, arith, ◌⊎◌, inl, inr, Bool-cases, Result, ok, err,
}
use kajovo_cml.Security.Text.{codes}
use kajovo_cml.WedosDns.Names.{Text, Error, upper_text}
use kajovo_cml.WedosDns.Store.{
  rank, Operation, WdnsRow, Call, rows_list, row_add, row_delete, domain_commit, observe_dns,
  resolve_txt, txt_values, Service, World, M, proceed, ◌>>=◌, ask, changed,
}
use kajovo_cml.WedosDns.Lifecycle.{
  Reach, Evolves, Evolves-refl, Evolves-trans, SameOwner, Reach-SameOwner, Reach-rank, Reach-row,
}

-- A row stands among those of a listing.
abbrev pub Lists : WdnsRow → List WdnsRow → Type 0
Lists row [] = ⊥
Lists row (r ∷ rows) = (r ≡ row) ⊎ Lists row rows

module _ (digest : Text → Text) (service : Service) where
  -- The last call was the listing of the zone, and its answer has a row with this identifier and with
  -- every mark of the operation.
  abbrev pub Listed : Operation → Text → List Call → Type 0
  Listed o row_id [] = ⊥
  Listed o row_id (call ∷ calls) =
      (rows : List WdnsRow) × (row : WdnsRow) × (call ≡ rows_list o.zone)
      × (service.rows calls o.zone ≡ ok rows)
      × Lists row rows
      × (row.name ≡ o.record_name)
      × (row.rdtype ≡ codes "TXT")
      × (digest row.rdata ≡ o.value_digest)
      × (row.author_comment ≡ o.author_comment)
      × (upper_text (upper_text row.id) ≡ row_id)

  -- The operation is being cleaned up, and the row is the one it has added.
  abbrev pub OwnsRow : Operation → Text → Text → List Call → Type 0
  OwnsRow o zone row_id calls =
      (4 ≤ rank o.state)
      × (zone ≡ o.zone)
      × ((own : Text) × (o.wedos_row_id ≡ some own) × (upper_text own ≡ row_id))
      × Listed o row_id calls

  abbrev pub IsOwned : (ℕ → Option Operation) → List Call → Call → Type 0
  IsOwned operations calls (rows_list zone) = Unit {0}
  IsOwned operations calls (row_add zone name value author_comment ttl) = Unit {0}
  IsOwned operations calls (row_delete zone row_id) =
      (id : ℕ) × (o : Operation) × (operations id ≡ some o) × OwnsRow o zone row_id calls
  IsOwned operations calls (domain_commit zone) = Unit {0}
  IsOwned operations calls (observe_dns zone record_name value) = Unit {0}
  IsOwned operations calls (resolve_txt zone record_name value present baseline) = Unit {0}
  IsOwned operations calls (txt_values zone record_name) = Unit {0}

  abbrev pub AllOwned : (ℕ → Option Operation) → List Call → Type 0
  AllOwned operations [] = Unit {0}
  AllOwned operations (call ∷ calls) = IsOwned operations calls call × AllOwned operations calls

  pub record Moves (w v : World) : Type 0 where
    pub evolves : (k : ℕ) → Evolves (w.operations k) (v.operations k)
    pub keeps_owned : AllOwned w.operations w.calls → AllOwned v.operations v.calls

  Listed-SameOwner :
      (o p : Operation) (row_id : Text) (calls : List Call)
      → SameOwner o p
      → Listed o row_id calls
      → Listed p row_id calls
  Listed-SameOwner o p row_id [] same h = absurd h
  Listed-SameOwner o p row_id (call ∷ calls) (zone, record_name, value_digest, author_comment) h = (
    h.0,
    h.1,
    h.2 ∙ ap rows_list (sym zone),
    rw zone (h.3),
    h.4,
    h.5 ∙ sym record_name,
    h.6,
    h.7 ∙ sym value_digest,
    h.8 ∙ sym author_comment,
    h.9,
  )

  pub OwnsRow-Reach :
      {o p : Operation} (zone row_id : Text) (calls : List Call)
      → Reach o p
      → OwnsRow o zone row_id calls
      → OwnsRow p zone row_id calls
  OwnsRow-Reach {o} {p} zone row_id calls r (late, in_zone, (own, added, is_id), listed) =
      let same = Reach-SameOwner r in
      (
        omega (arith, Reach-rank r),
        in_zone ∙ sym (same.0),
        (own, Reach-row r (omega arith) ∙ added, is_id),
        Listed-SameOwner o p row_id calls same listed,
      )

  pub later_row :
      (o : Operation) (later : Option Operation)
      → Evolves (some o) later
      → (p : Operation) × (later ≡ some p) × Reach o p
  later_row o none h = absurd h
  later_row o (some p) h = (p, refl, h)

  module _ (before after : ℕ → Option Operation)
      (evolves : (k : ℕ) → Evolves (before k) (after k)) where
    IsOwned-evolves :
        (calls : List Call) (call : Call) → IsOwned before calls call → IsOwned after calls call
    IsOwned-evolves calls (rows_list zone) h = tt
    IsOwned-evolves calls (row_add zone name value author_comment ttl) h = tt
    IsOwned-evolves calls (row_delete zone row_id) (id, o, e, own) =
        let (p, there, reach) =
          later_row o (after id) (subst (λ q. Evolves q (after id)) e (evolves id)) in
        (id, p, there, OwnsRow-Reach zone row_id calls reach own)
    IsOwned-evolves calls (domain_commit zone) h = tt
    IsOwned-evolves calls (observe_dns zone record_name value) h = tt
    IsOwned-evolves calls (resolve_txt zone record_name value present baseline) h = tt
    IsOwned-evolves calls (txt_values zone record_name) h = tt

    pub AllOwned-evolves : (calls : List Call) → AllOwned before calls → AllOwned after calls
    AllOwned-evolves [] h = tt
    AllOwned-evolves (call ∷ calls) h =
        (IsOwned-evolves calls call (h.0), AllOwned-evolves calls (h.1))

  pub Moves-refl : (w : World) → Moves w w
  Moves-refl w = record { evolves = λ k. Evolves-refl (w.operations k); keeps_owned = λ h. h }

  pub Moves-trans : (u v w : World) → Moves u v → Moves v w → Moves u w
  Moves-trans u v w a b = record {
    evolves = λ k.
        Evolves-trans (u.operations k) (v.operations k) (w.operations k) (a.evolves k)
          (b.evolves k);
    keeps_owned = λ h. b.keeps_owned (a.keeps_owned h);
  }

  -- An `update` of a row that only goes on.
  pub changed-Moves :
      (id : ℕ) (f : Operation → Operation) (w : World)
      → ((o : Operation) → w.operations id ≡ some o → Reach o (f o))
      → Moves w (changed id f w)
  changed-Moves id f w goes = record {
    evolves = evolves;
    keeps_owned = AllOwned-evolves w.operations _ evolves w.calls;
  }
    where
      at_row :
          (o : Option Operation)
          → ((p : Operation) → o ≡ some p → Reach p (f p))
          → Evolves o (option_map f o)
      at_row none g = tt
      at_row (some o) g = g o refl

      evolves : (k : ℕ) → Evolves (w.operations k) ((changed id f w).operations k)
      evolves k = elim (Bool-cases (k == id)) [
        | inl e ↦ rw e (
            at_row (w.operations k)
              (λ p h. goes p (ap w.operations (sym ((nat_beq_iff k id).0 e)) ∙ h)))
        | inr e ↦ rw e (Evolves-refl (w.operations k))
      ]

  -- A call with an answer; a deletion has to be of an owned row.
  pub ask-Moves :
      {A : Type 0} (call : Call) (answer : List Call → Result Error A) (w : World)
      → IsOwned w.operations w.calls call
      → Moves w (ask call answer w).1
  ask-Moves call answer w own = record {
    evolves = λ k. Evolves-refl (w.operations k);
    keeps_owned = λ h. (own, h);
  }

  -- A step and what follows it.
  pub bind-Moves :
      {A B : Type 0} (m : M A) (f : A → M B) (w : World)
      → Moves w (m w).1
      → ((a : A) → (m w).0 ≡ ok a → Moves (m w).1 (f a (m w).1).1)
      → Moves w ((m >>= f) w).1
  bind-Moves {A} {B} m f w first rest = go (m w) first rest
    where
      go :
          (r : Result Error A × World)
          → Moves w r.1
          → ((a : A) → r.0 ≡ ok a → Moves r.1 (f a r.1).1)
          → Moves w (proceed f r).1
      go (ok a, v) first rest = Moves-trans w v _ first (rest a refl)
      go (err e, v) first rest = first

-- What holds behind a function that returns.
abbrev pub Post : {A : Type 0} → (A → World → Type 0) → Result Error A × World → Type 0
Post Q (ok a, w) = Q a w
Post Q (err e, w) = Unit {0}

pub bind-Post :
    {A B : Type 0} (Q : B → World → Type 0) (m : M A) (f : A → M B) (w : World)
    → ((a : A) (v : World) → Post Q (f a v))
    → Post Q ((m >>= f) w)
bind-Post {A} {B} Q m f w h = go (m w)
  where
    go : (r : Result Error A × World) → Post Q (proceed f r)
    go (ok a, v) = h a v
    go (err e, v) = tt

pub Post-ok :
    {A : Type 0} (Q : A → World → Type 0) (r : Result Error A × World) (a : A)
    → Post Q r
    → r.0 ≡ ok a
    → Q a r.1
Post-ok Q (ok b, w) a q h = let same : b ≡ a = cc h in subst (λ x. Q x w) same q
Post-ok Q (err e, w) a q h = cc h
