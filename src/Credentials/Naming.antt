-- ===== src/Credentials/Naming.antt =====
-- Which operation of an external API a call names (`authorizeManagedServiceToken` of
-- apps/server/src/domain/managed-service.ts).
use kajovo_cml.Prelude.{
  ℕ, true, ◌&&◌, ◌==◌, nat_eq, string_eq, Option, none, some, List, [], ◌∷◌, ◌≡◌, ◌≢◌, refl, sym,
  ap, subst, ◌∙◌, ◌↔◌, inl, inr, Option-cases, some_inj,
}
use kajovo_cml.Credentials.External.{ExternalOperation, match_external_api_operation}
use kajovo_cml.Credentials.Access.{is_given}
use kajovo_cml.Credentials.Authorize.{
  TokenRequest, is_text, text_of, is_matched, same_sorted_strings,
}
use kajovo_cml.Credentials.Holding.{and_iff}
use kajovo_cml.Credentials.Available.{Given, Given-iff}

-- The manifest has an operation of the method and the path, and it is the one that the caller names,
-- with the scopes that the caller asks for.
abbrev pub Names : List ExternalOperation → TokenRequest → Type 0
Names operations r =
    (method : List ℕ) × (path : List ℕ) × (o : ExternalOperation) × (r.request_method ≡ some method)
    × (method ≢ [])
    × (r.request_path ≡ some path)
    × (path ≢ [])
    × Given r.operation_id
    × (r.operation_id ≡ some o.operation_id)
    × (match_external_api_operation operations method path ≡ some o)
    × (same_sorted_strings o.required_scopes r.required_scopes ≡ true)

text_iff : (o : Option (List ℕ)) → (is_text o ≡ true) ↔ ((t : List ℕ) × (o ≡ some t) × (t ≢ []))
text_iff none = (λ h. cc, λ w. cc (w.1))
text_iff (some []) = (λ h. cc, λ (t, e, n). absurd (n (sym (some_inj e))))
text_iff (some (c ∷ t)) = (λ h. (c ∷ t, refl, λ e. cc), λ w. refl)

matched_iff :
    (x : Option ExternalOperation) (r : TokenRequest)
    → (is_matched x r ≡ true) ↔ (
        (o : ExternalOperation) × (x ≡ some o)
        × (r.operation_id ≡ some o.operation_id)
        × (same_sorted_strings o.required_scopes r.required_scopes ≡ true))
matched_iff none r = (λ h. cc, λ w. cc (w.1))
matched_iff (some o) r = elim (Option-cases r.operation_id) [
  | inl e ↦ rw e (λ h. cc, λ w. cc (w.2))
  | inr (id, e) ↦ rw e (
    λ h.
        let (same, scopes) = (and_iff (o.operation_id == id) _).0 h in
        (o, refl, ap some (sym ((string_eq.beq_iff o.operation_id id).0 same)), scopes),
    λ (q, f, named, scopes).
        let here : q ≡ o = some_inj (sym f) in
        (and_iff (o.operation_id == id) _).1 (
          (string_eq.beq_iff o.operation_id id).1
              (sym (some_inj named ∙ ap (λ (y : ExternalOperation). y.operation_id) here)),
          subst
              (λ (y : ExternalOperation).
                same_sorted_strings y.required_scopes r.required_scopes ≡ true)
              here scopes,
        ),
  )
]

module _ (operations : List ExternalOperation) (r : TokenRequest) where
  looked_up :
      {method path : List ℕ}
      → r.request_method ≡ some method
      → r.request_path ≡ some path
      → match_external_api_operation operations (text_of r.request_method) (text_of r.request_path)
        ≡ match_external_api_operation operations method path
  looked_up {method} {path} e f =
      ap
        (λ (x : Option (List ℕ)).
          match_external_api_operation operations (text_of x) (text_of r.request_path))
        e
      ∙ ap (λ (x : Option (List ℕ)). match_external_api_operation operations method (text_of x)) f

  pub Names-iff :
      (((is_text r.request_method && is_text r.request_path && is_given r.operation_id) ≡ true)
        × (is_matched
              (match_external_api_operation operations
                (text_of r.request_method)
                (text_of r.request_path))
              r
            ≡ true))
      ↔ Names operations r
  Names-iff = (
    λ (context, matched).
        let (texts, named) = (and_iff _ _).0 context in
        let (has_method, has_path) = (and_iff (is_text r.request_method) _).0 texts in
        let (method, method_e, method_n) = (text_iff r.request_method).0 has_method in
        let (path, path_e, path_n) = (text_iff r.request_path).0 has_path in
        let (o, found, id, scopes) = (matched_iff _ r).0 matched in
        (
          method,
          path,
          o,
          method_e,
          method_n,
          path_e,
          path_n,
          (Given-iff _).0 named,
          id,
          sym (looked_up method_e path_e) ∙ found,
          scopes,
        ),
    λ (method, path, o, method_e, method_n, path_e, path_n, named, id, found, scopes). (
      (and_iff _ _).1 (
        (and_iff _ _).1 (
          (text_iff r.request_method).1 (method, method_e, method_n),
          (text_iff r.request_path).1 (path, path_e, path_n),
        ),
        (Given-iff _).1 named,
      ),
      (matched_iff _ r).1 (o, looked_up method_e path_e ∙ found, id, scopes),
    ),
  )
