-- ===== src/Security/Redact/Laws.antt =====
-- What a redacted value can still show.
use kajovo_cml.Prelude.{
  Bool, true, false, ◌&&◌, ◌≡◌, refl, if◌then◌else◌, Bool-cases, inl, inr, ap, sym, ◌∙◌, text_beq,
}
use mathlib.Core.Path.{ap₂}
use kajovo_cml.Security.Text.{redacted_mark}
use kajovo_cml.Security.Redact.{
  Json, null, bool, num, text, uuid, arr, obj, Items, nil, cons, Fields, end, field, is_sensitive,
  redact, redact_items, redact_fields,
}

-- `[REDACTED]`.
abbrev pub is_mark : Json → Bool
is_mark (text s) = text_beq s redacted_mark
is_mark _ = false

-- Under a sensitive key, at any depth, stands nothing but the mark.
mutual
  pub hides_secrets : Json → Bool
  hides_secrets (arr items) = hides_in_items items
  hides_secrets (obj entries) = hides_in_fields entries
  hides_secrets _ = true

  pub hides_in_items : Items → Bool
  hides_in_items nil = true
  hides_in_items (cons j items) = hides_secrets j && hides_in_items items

  pub hides_in_fields : Fields → Bool
  hides_in_fields end = true
  hides_in_fields (field key j entries) =
      (if is_sensitive key then is_mark j else hides_secrets j) && hides_in_fields entries

mutual
  unfolding hides_secrets redact

  hides : (j : Json) → hides_secrets (redact j) ≡ true
  hides null = refl
  hides (bool b) = refl
  hides (num n) = refl
  hides (text s) = refl
  hides (uuid u) = refl
  hides (arr items) = hides_items items
  hides (obj entries) = hides_fields entries

  hides_items : (items : Items) → hides_in_items (redact_items items) ≡ true
  hides_items nil = refl
  hides_items (cons j items) = rw (hides j, hides_items items)

  hides_fields : (entries : Fields) → hides_in_fields (redact_fields entries) ≡ true
  hides_fields end = refl
  hides_fields (field key j entries) = elim (Bool-cases (is_sensitive key)) [
    | inl e ↦ rw (e, hides_fields entries)
    | inr e ↦ rw (e, hides j, hides_fields entries)
  ]

-- In a redacted value nothing but the mark stands under a sensitive key, however deep it is.
pub redact-hides_secrets : (j : Json) → hides_secrets (redact j) ≡ true
redact-hides_secrets j = hides j

-- A value with what stands under its sensitive keys taken out.
unfoldable mutual
  pub erase_secrets : Json → Json
  erase_secrets null = null
  erase_secrets (bool b) = bool b
  erase_secrets (num n) = num n
  erase_secrets (text s) = text s
  erase_secrets (uuid u) = uuid u
  erase_secrets (arr items) = arr (erase_items items)
  erase_secrets (obj entries) = obj (erase_fields entries)

  pub erase_items : Items → Items
  erase_items nil = nil
  erase_items (cons j items) = cons (erase_secrets j) (erase_items items)

  pub erase_fields : Fields → Fields
  erase_fields end = end
  erase_fields (field key j entries) =
      field key (if is_sensitive key then null else erase_secrets j) (erase_fields entries)

mutual
  unfolding erase_secrets redact

  erased : (j : Json) → redact (erase_secrets j) ≡ redact j
  erased null = refl
  erased (bool b) = refl
  erased (num n) = refl
  erased (text s) = refl
  erased (uuid u) = refl
  erased (arr items) = ap arr (erased_items items)
  erased (obj entries) = ap obj (erased_fields entries)

  erased_items : (items : Items) → redact_items (erase_items items) ≡ redact_items items
  erased_items nil = refl
  erased_items (cons j items) = ap₂ cons (erased j) (erased_items items)

  erased_fields : (entries : Fields) → redact_fields (erase_fields entries) ≡ redact_fields entries
  erased_fields end = refl
  erased_fields (field key j entries) = elim (Bool-cases (is_sensitive key)) [
    | inl e ↦ rw (e, erased_fields entries)
    | inr e ↦ rw (e, erased j, erased_fields entries)
  ]

-- Two values that differ at most under their sensitive keys are the same once redacted, so nothing
-- of a secret is left in the result.
pub redact_independent : (i j : Json) → erase_secrets i ≡ erase_secrets j → redact i ≡ redact j
redact_independent i j e = sym (erased i) ∙ ap redact e ∙ erased j
