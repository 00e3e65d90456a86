-- ===== src/WedosDns/Owned.antt =====
-- The deletion of a row in `cleanupDnsOperation` of apps/server/src/tls/wedos-dns-operation.ts: what the
-- code knows of the row by then.
use kajovo_cml.Prelude.{
  ℕ, ◌≤◌, true, false, not, ◌&&◌, ◌==◌, nat_eq, text_eq, text_beq_iff, Option, none, some, List, [],
  ◌∷◌, ◌≡◌, refl, sym, ap, ◌∙◌, arith, inl, inr, filter, Bool-cases, Result-cases, ok,
}
use kajovo_cml.Security.Text.{codes}
use kajovo_cml.WedosDns.Names.{Text, upper, upper_text}
use kajovo_cml.WedosDns.Store.{rank, Operation, WdnsRow, rows_list, Service, World}
use kajovo_cml.WedosDns.Rows.{is_exact, single, list_exact_owned_row, is_own_row}
use kajovo_cml.WedosDns.Moves.{Lists, OwnsRow}

upper_twice : (c : ℕ) → upper (upper c) ≡ upper c
unfolding upper
upper_twice c = ground arith

upper_text_twice : (t : Text) → upper_text (upper_text t) ≡ upper_text t
upper_text_twice [] = refl
upper_text_twice (c ∷ t) = rw (upper_twice c, upper_text_twice t)

own_row_lem :
    (o : Operation) (row : WdnsRow)
    → is_own_row o (some row) ≡ true
    → (own : Text) × (o.wedos_row_id ≡ some own) × (upper_text own ≡ upper_text row.id)
unfolding is_own_row
own_row_lem o row h = at_id o.wedos_row_id refl h
  where
    at_id :
        (i : Option Text)
        → o.wedos_row_id ≡ i
        → elim i [
          | none ↦ false
          | some row_id ↦ not (row_id == []) && upper_text row.id == upper_text row_id
        ]
          ≡ true
        → (own : Text) × (o.wedos_row_id ≡ some own) × (upper_text own ≡ upper_text row.id)
    at_id none e h = cc
    at_id (some own) e h =
        (own, e, sym ((text_beq_iff (upper_text row.id) (upper_text own)).0 (ground arith)))

single-Lists :
    (o : Operation) (value : Text) (rows : List WdnsRow) (row : WdnsRow) (w : World)
    → (single (filter (is_exact o value) rows) w).0 ≡ ok (some row)
    → Lists row rows × (is_exact o value row ≡ true)
single-Lists o value [] row w h = cc
single-Lists o value (r ∷ rows) row w h = elim (Bool-cases (is_exact o value r)) [
  | inl e ↦ only e (filter (is_exact o value) rows) (rw e at h)
  | inr e ↦ let p = single-Lists o value rows row w (rw e at h) in (inr (p.0), p.1)
]
  where
    only :
        is_exact o value r ≡ true
        → (rest : List WdnsRow) → (single (r ∷ rest) w).0 ≡ ok (some row)
        → Lists row (r ∷ rows) × (is_exact o value row ≡ true)
    only e [] h = let same : r ≡ row = cc h in (inl same, rw (← same) e)
    only e (x ∷ rest) h = cc h

single-world : (rows : List WdnsRow) (w : World) → (single rows w).1 ≡ w
single-world [] w = refl
single-world (row ∷ []) w = refl
single-world (row ∷ other ∷ rows) w = refl

module _ (digest : Text → Text) (service : Service) where
  -- A row that `listExactOwnedRow` returns stands in the listing that was just asked for, and the value is
  -- the one whose digest is stored.
  list_exact-Lists :
      (o : Operation) (value : Text) (w : World) (row : WdnsRow)
      → (list_exact_owned_row digest service o value w).0 ≡ ok (some row)
      → ((list_exact_owned_row digest service o value w).1
          ≡ record w { calls = rows_list o.zone ∷ w.calls })
        × ((rows : List WdnsRow) × (service.rows w.calls o.zone ≡ ok rows) × Lists row rows)
        × (is_exact o value row ≡ true)
        × (digest value ≡ o.value_digest)
  unfolding list_exact_owned_row
  list_exact-Lists o value w row h = elim (Bool-cases (digest value == o.value_digest)) [
    | inr e ↦ cc (rw e at h)
    | inl e ↦ elim (Result-cases (service.rows w.calls o.zone)) [
      | inr (f, r) ↦ cc (rw (e, r) at h)
      | inl (rows, r) ↦
          let v = record w { calls = rows_list o.zone ∷ w.calls } in
          let (here, exact) = single-Lists o value rows row v (rw (e, r) at h) in
          (
            rw (e, r) (single-world (filter (is_exact o value) rows) v),
            (rows, r, here),
            exact,
            (text_beq_iff (digest value) o.value_digest).0 e,
          )
    ]
  ]

  exact_marks :
      (o : Operation) (value : Text) (row : WdnsRow)
      → is_exact o value row ≡ true
      → (row.name ≡ o.record_name)
        × (row.rdtype ≡ codes "TXT")
        × (row.rdata ≡ value)
        × (row.author_comment ≡ o.author_comment)
  unfolding is_exact
  exact_marks o value row h = ground (
    arith,
    text_beq_iff row.name o.record_name,
    text_beq_iff row.rdtype (codes "TXT"),
    text_beq_iff row.rdata value,
    text_beq_iff row.author_comment o.author_comment,
  )

  -- The row behind the guard of the deletion is the operation's own.
  pub exact-OwnsRow :
      (o : Operation) (value : Text) (w : World) (row : WdnsRow)
      → 4 ≤ rank o.state
      → (list_exact_owned_row digest service o value w).0 ≡ ok (some row)
      → is_own_row o (some row) ≡ true
      → OwnsRow digest service o o.zone
          (upper_text (upper_text row.id))
          (rows_list o.zone ∷ w.calls)
  exact-OwnsRow o value w row late h own =
      let (world, (rows, answer, there), exact, digested) = list_exact-Lists o value w row h in
      let (same_name, same_type, same_data, same_comment) = exact_marks o value row exact in
      let (mine, added, is_mine) = own_row_lem o row own in
      (
        late,
        refl,
        (mine, added, is_mine ∙ sym (upper_text_twice row.id)),
        (
          rows,
          row,
          refl,
          answer,
          there,
          same_name,
          same_type,
          ap digest same_data ∙ digested,
          same_comment,
          refl,
        ),
      )

  pub list_exact-world :
      (o : Operation) (value : Text) (w : World) (row : WdnsRow)
      → (list_exact_owned_row digest service o value w).0 ≡ ok (some row)
      → (list_exact_owned_row digest service o value w).1
        ≡ record w { calls = rows_list o.zone ∷ w.calls }
  list_exact-world o value w row h = (list_exact-Lists o value w row h).0
