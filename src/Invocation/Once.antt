-- ===== src/Invocation/Once.antt =====
-- A call is finalized once (apps/server/src/domain/invocation.ts).
use kajovo_cml.Prelude.{
  ℕ, Bool, true, false, nat_eq, List, [], ◌∷◌, any, update_where, ◌≡◌, refl, sym, ap, ◌⊎◌, inl, inr,
  arith, Bool-cases, ok, err, subst,
}
use kajovo_cml.Security.Redact.{Json}
use kajovo_cml.Alerts.Raise.{FreshIds}
use kajovo_cml.Invocation.{
  InvocationRow, InvocationStore, InvocationOutcome, FinalizeInput, invocation_not_finalizable,
  FailureInput, is_accepted, finalized, write_finalization, finalize_invocation,
  record_finalization_failure, unfinalized,
}

finalized_not :
    (id now digest : ℕ) (outcome : InvocationOutcome) (i : InvocationRow)
    → is_accepted id (finalized now digest outcome i) ≡ false
finalized_not id now digest outcome i = ground arith

none_left :
    (p : InvocationRow → Bool) (f : InvocationRow → InvocationRow)
    → ((i : InvocationRow) → p (f i) ≡ false)
    → (rows : List InvocationRow) → any p (update_where p f rows) ≡ false
none_left p f h [] = refl
none_left p f h (i ∷ rows) = elim (Bool-cases (p i)) [
  | inl e ↦ rw (e, h i) (none_left p f h rows)
  | inr e ↦ rw e (rw e (none_left p f h rows))
]

pub untouched :
    (p : InvocationRow → Bool) (f : InvocationRow → InvocationRow) (rows : List InvocationRow)
    → any p rows ≡ false
    → update_where p f rows ≡ rows
untouched p f [] h = refl
untouched p f (i ∷ rows) h =
    let off : p i ≡ false = ground arith in
    rw off (ap (λ l. i ∷ l) (untouched p f rows (ground arith)))

pub finalize_cases :
    (digest : Json → ℕ) (db : InvocationStore) (now : ℕ) (input : FinalizeInput)
    → ((any (is_accepted input.invocation_id) db.invocations ≡ true)
        × (finalize_invocation digest db now input ≡ ok (write_finalization digest db now input)))
      ⊎ ((any (is_accepted input.invocation_id) db.invocations ≡ false)
          × (finalize_invocation digest db now input ≡ err invocation_not_finalizable))
unfolding finalize_invocation
finalize_cases digest db now input =
    elim (Bool-cases (any (is_accepted input.invocation_id) db.invocations)) [
      | inl e ↦ inl (e, rw (finalize_invocation, e) refl)
      | inr e ↦ inr (e, rw (finalize_invocation, e) refl)
    ]

refused :
    (digest : Json → ℕ) (db : InvocationStore) (now : ℕ) (input : FinalizeInput)
    → any (is_accepted input.invocation_id) db.invocations ≡ false
    → finalize_invocation digest db now input ≡ err invocation_not_finalizable
unfolding finalize_invocation
refused digest db now input e = rw (finalize_invocation, e) refl

written :
    (digest : Json → ℕ) (db t : InvocationStore) (now : ℕ) (input : FinalizeInput)
    → finalize_invocation digest db now input ≡ ok t
    → write_finalization digest db now input ≡ t
written digest db t now input h = elim (finalize_cases digest db now input) [
  | inl done ↦ cc (done.1, h)
  | inr failed ↦ cc (failed.1, h)
]

rows_left :
    (digest : Json → ℕ) (db : InvocationStore) (now : ℕ) (input : FinalizeInput)
    → any (is_accepted input.invocation_id) (write_finalization digest db now input).invocations
      ≡ false
unfolding write_finalization
rows_left digest db now input =
    none_left (is_accepted input.invocation_id)
      (finalized now (digest input.outcome.response) input.outcome)
      (finalized_not input.invocation_id now (digest input.outcome.response) input.outcome)
      db.invocations

-- Once a call has been finalized, it cannot be finalized again, with whatever outcome, and a failure
-- recorded for it leaves the record of the calls as it is.
pub finalize_once :
    (digest : Json → ℕ) (db t : InvocationStore) (now later : ℕ) (input second : FinalizeInput)
    (fresh : FreshIds) (failure : FailureInput)
    → finalize_invocation digest db now input ≡ ok t
    → second.invocation_id ≡ input.invocation_id
    → failure.invocation_id ≡ input.invocation_id
    → (finalize_invocation digest t later second ≡ err invocation_not_finalizable)
      × ((record_finalization_failure t later fresh failure).invocations ≡ t.invocations)
unfolding record_finalization_failure
finalize_once digest db t now later input second fresh failure h same same_failure =
    let left : any (is_accepted input.invocation_id) t.invocations ≡ false =
      subst (λ (x : InvocationStore). any (is_accepted input.invocation_id) x.invocations ≡ false)
        (written digest db t now input h) (rows_left digest db now input) in
    (
      refused digest t later second
          (subst (λ (k : ℕ). any (is_accepted k) t.invocations ≡ false) (sym same) left),
      untouched (is_accepted failure.invocation_id) (unfinalized later) t.invocations
          (subst (λ (k : ℕ). any (is_accepted k) t.invocations ≡ false) (sym same_failure) left),
    )
