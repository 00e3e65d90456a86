-- ===== src/Security/Text/Tests.antt =====
-- Runs of the redaction of secrets.ts.
use kajovo_cml.Prelude.{◌≡◌, refl}
use kajovo_cml.Security.Text.{codes, redact_text}

redacts_headers :
    redact_text (codes "Authorization: Basic abc\nok cookie:x Bearer  q,r")
    ≡ codes "authorization: [REDACTED]\nok cookie: [REDACTED]"
unfolding redact_text
redacts_headers = refl

redacts_tokens :
    redact_text (codes "a bearer  q,r kci_0123456789012345678901234567890123456789-- z")
    ≡ codes "a bearer  [REDACTED],r [REDACTED]-- z"
unfolding redact_text
redacts_tokens = refl
