-- ===== src/Security/Redact.antt =====
-- `redact` of apps/server/src/security/secrets.ts over the values that JSON can hold.
mod Laws
mod Tests
use kajovo_cml.Prelude.{
  ℕ, Bool, true, false, ◌&&◌, ◌||◌, Option, none, some, List, [], ◌∷◌, String, ◌==◌, nat_eq,
  if◌then◌else◌, any, is_some,
}
use kajovo_cml.Security.Text.{codes, redacted_mark, lower, strip_prefix, redact_text}

-- A value as `JSON.stringify` writes it. A text is its code units; `uuid` is a text that holds an
-- identifier.
mutual
  pub data Json : Type 0 where
    null : Json
    bool : Bool → Json
    num : ℕ → Json
    text : List ℕ → Json
    uuid : ℕ → Json
    arr : Items → Json
    obj : Fields → Json

  pub data Items : Type 0 where
    nil : Items
    cons : Json → Items → Items

  pub data Fields : Type 0 where
    end : Fields
    field : List ℕ → Json → Fields → Fields

abbrev pub fields : List (String × Json) → Fields
fields [] = end
fields ((k, v) ∷ rest) = field (codes k) v (fields rest)

-- An object literal of the source.
abbrev pub object : List (String × Json) → Json
object entries = obj (fields entries)

abbrev pub uuid_or_null : Option ℕ → Json
uuid_or_null none = null
uuid_or_null (some u) = uuid u

abbrev pub text_or_null : Option String → Json
text_or_null none = null
text_or_null (some s) = text (codes s)

pub contains : List ℕ → List ℕ → Bool
unfolding strip_prefix
contains word [] = is_some (strip_prefix word [])
contains word (c ∷ key) = is_some (strip_prefix word (c ∷ key)) || contains word key

abbrev pub is_whole : Option (List ℕ) → Bool
is_whole (some []) = true
is_whole _ = false

-- `(?:^|_)key$`, where `start` says that the text starts here or behind a `_`.
pub ends_with_key : Bool → List ℕ → Bool
unfolding strip_prefix
ends_with_key start [] = false
ends_with_key start (c ∷ rest) =
    (start && is_whole (strip_prefix (codes "key") (c ∷ rest))) || ends_with_key (c == b'_') rest

abbrev pub sensitive_words : List (List ℕ)
sensitive_words =
    codes "secret"
    ∷ codes "token"
    ∷ codes "password"
    ∷ codes "authorization"
    ∷ codes "cookie"
    ∷ codes "credential"
    ∷ codes "clientsecret"
    ∷ codes "privatekey"
    ∷ codes "mfa"
    ∷ codes "otp"
    ∷ codes "totp"
    ∷ codes "signature"
    ∷ codes "digest"
    ∷ codes "session"
    ∷ codes "csrf"
    ∷ []

-- The test on a key of an object.
pub is_sensitive : List ℕ → Bool
unfolding contains ends_with_key
is_sensitive key = any (λ word. contains word key) sensitive_words || ends_with_key true key

mutual
  pub redact : Json → Json
  redact null = null
  redact (bool b) = bool b
  redact (num n) = num n
  redact (text s) = text (redact_text s)
  redact (uuid u) = uuid u
  redact (arr items) = arr (redact_items items)
  redact (obj entries) = obj (redact_fields entries)

  pub redact_items : Items → Items
  redact_items nil = nil
  redact_items (cons j items) = cons (redact j) (redact_items items)

  pub redact_fields : Fields → Fields
  redact_fields end = end
  redact_fields (field key j entries) =
      field key (if is_sensitive key then text redacted_mark else redact j) (redact_fields entries)
