-- ===== src/WedosDns/Comments.antt =====
-- The ownership marker that `operationAuthorComment` writes and `parseAuthorComment` reads
-- (apps/server/src/tls/wedos-dns-operation.ts).
use kajovo_cml.Prelude.{
  Bool, true, false, not, ◌==◌, nat_eq, map, filter, ◌++◌, ◌≡◌, refl, inl, inr, Bool-cases, ok,
}
use kajovo_cml.Security.Text.{codes}
use kajovo_cml.WedosDns.Names.{
  Text, lower, Purpose, acme, preflight_test, purpose_name, is_compact_id, operation_author_comment,
  parse_author_comment,
}

abbrev pub is_same_purpose : Purpose → Purpose → Bool
is_same_purpose acme acme = true
is_same_purpose acme preflight_test = false
is_same_purpose preflight_test acme = false
is_same_purpose preflight_test preflight_test = true

parse-written :
    (p q : Purpose) (compact : Text)
    → is_compact_id compact ≡ true
    → parse_author_comment (codes "kcml" ++ purpose_name p ++ compact) q ≡ is_same_purpose p q
unfolding parse_author_comment
parse-written acme acme compact h = h
parse-written acme preflight_test compact h = refl
parse-written preflight_test acme compact h = refl
parse-written preflight_test preflight_test compact h = h

-- A marker that is written for a purpose is read as one of this purpose, and of no other; so the test of
-- the marker in `createWedosDnsOperation` never fails.
pub parse-operation_author_comment :
    (p q : Purpose) (correlation_id comment : Text)
    → operation_author_comment p correlation_id ≡ ok comment
    → parse_author_comment comment q ≡ is_same_purpose p q
unfolding operation_author_comment
parse-operation_author_comment p q correlation_id comment h =
    let compact = map lower (filter (λ c. not (c == b'-')) correlation_id) in
    elim (Bool-cases (is_compact_id compact)) [
      | inr e ↦ cc (rw e at h)
      | inl e ↦
          let written : codes "kcml" ++ purpose_name p ++ compact ≡ comment = cc (rw e at h) in
          rw (← written) (parse-written p q compact e)
    ]
