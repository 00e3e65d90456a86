-- ===== src/Security/Redact/Tests.antt =====
-- Runs of `redact` on the payload of an audit event.
use kajovo_cml.Prelude.{◌≡◌, refl, true, [], ◌∷◌}
use kajovo_cml.Security.Text.{codes, redact_text}
use kajovo_cml.Security.Redact.{Json, text, num, object, is_sensitive, redact}
use kajovo_cml.Security.Redact.Laws.{
  hides_secrets, redact-hides_secrets, erase_secrets, redact_independent,
}

abbrev login : Json → Json
login token = object (
    ("user", text (codes "Bearer abc,x"))
    ∷ ("nested", object (("access_token", token) ∷ ("attempt", num 3) ∷ ("api_key", token) ∷ []))
    ∷ [])

redact-login :
    redact (login (text (codes "kca_1")))
    ≡ object (
        ("user", text (codes "Bearer [REDACTED],x"))
        ∷ (
          "nested",
          object (
              ("access_token", text (codes "[REDACTED]"))
              ∷ ("attempt", num 3)
              ∷ ("api_key", text (codes "[REDACTED]"))
              ∷ []),
        )
        ∷ [])
unfolding redact is_sensitive redact_text
redact-login = refl

redact-hides_secrets_example : hides_secrets (redact (login (num 7))) ≡ true
redact-hides_secrets_example = redact-hides_secrets (login (num 7))

redact_independent_example : redact (login (num 7)) ≡ redact (login (text (codes "other")))
unfolding erase_secrets is_sensitive
redact_independent_example = redact_independent (login (num 7)) (login (text (codes "other"))) refl
