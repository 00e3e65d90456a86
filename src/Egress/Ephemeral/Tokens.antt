-- ===== src/Egress/Ephemeral/Tokens.antt =====
-- What a signed capability is worth (apps/server/src/domain/egress.ts).
mod Tests
use kajovo_cml.Prelude.{
  ℕ, ◌+◌, ◌*◌, ◌<◌, max, Bool, true, false, not, ◌&&◌, ◌||◌, ◌==◌, nat_eq, text_eq, text_beq_iff,
  Option, none, some, List, [], ◌∷◌, ◌++◌, all, All, leb, ◌≡◌, ◌≢◌, refl, sym, ap, ◌∙◌, ◌⊎◌, inl,
  inr, arith, Bool-cases, Option-cases, if◌then◌else◌, Result, ok, err,
}
use kajovo_cml.Security.Redact.{Fields}
use kajovo_cml.Security.Text.{codes}
use kajovo_cml.Egress.Capability.{EgressError, invalid_egress_capability}
use kajovo_cml.Egress.Ephemeral.{
  TcpTlsEntry, ValidatedCapability, texts, entries, payload_fields, only_texts, tcp_tls_entries,
  split_last_dot, drop, is_empty, optional_text, text_or_none, number_of, validated_payload,
  create_ephemeral_egress_capability, validate_parts, validate_ephemeral_egress_capability,
}

abbrev pub has_no_dot : List ℕ → Bool
has_no_dot s = all (λ c. not (c == b'.')) s

-- An entry that names a host and a server.
abbrev pub Named : TcpTlsEntry → Type 0
Named e = (is_empty e.target_host ≡ false) × (is_empty e.servername ≡ false)

split-dotless : (s : List ℕ) → has_no_dot s ≡ true → split_last_dot s ≡ none
unfolding split_last_dot
split-dotless [] h = refl
split-dotless (c ∷ s) h =
    let off : (c == b'.') ≡ false = ground arith in
    rw (split-dotless s (ground arith)) (rw off refl)

split-signed : (p s : List ℕ) → has_no_dot s ≡ true → split_last_dot (p ++ b'.' ∷ s) ≡ some (p, s)
unfolding split_last_dot
split-signed [] s h = rw (split-dotless s h) refl
split-signed (c ∷ p) s h = rw (split-signed p s h) refl

only_texts-texts : (l : List (List ℕ)) → only_texts (texts l) ≡ l
unfolding only_texts
only_texts-texts [] = refl
only_texts-texts (s ∷ l) = ap (λ r. s ∷ r) (only_texts-texts l)

tcp_tls_entries-entries : (es : List TcpTlsEntry) → All Named es → tcp_tls_entries (entries es) ≡ es
unfolding tcp_tls_entries number_of
tcp_tls_entries-entries [] h = refl
tcp_tls_entries-entries (e ∷ es) h =
    rw (h.0.0, h.0.1) (ap (λ r. e ∷ r) (tcp_tls_entries-entries es (h.1)))

text_or_none-optional_text : (o : Option (List ℕ)) → text_or_none (some (optional_text o)) ≡ o
text_or_none-optional_text none = refl
text_or_none-optional_text (some s) = refl

payload_accepted :
    (c : ValidatedCapability) (now later ttl_seconds : ℕ)
    → All Named c.tcp_tls_allowlist
    → later < now + max 5 ttl_seconds * 1000
    → validated_payload later (payload_fields c now ttl_seconds) ≡ ok c
unfolding validated_payload payload_fields number_of
payload_accepted c now later ttl_seconds named fresh =
    let unexpired : leb (now + max 5 ttl_seconds * 1000) later ≡ false = ground arith in
    rw
      (
        unexpired,
        only_texts-texts c.allowlist,
        tcp_tls_entries-entries c.tcp_tls_allowlist named,
        text_or_none-optional_text c.managed_service_id,
        text_or_none-optional_text c.correlation_id,
      )
      refl

module _ (encode : Fields → List ℕ) (decode : List ℕ → Option Fields) (sign : List ℕ → List ℕ) where
  no_parts : (now : ℕ) → validate_parts encode decode sign now none ≡ err invalid_egress_capability
  unfolding validate_parts
  no_parts now = refl

  wrong_parts :
      (now : ℕ) (payload signature : List ℕ)
      → (is_empty payload || not (signature == sign payload)) ≡ true
      → validate_parts encode decode sign now (some (payload, signature))
        ≡ err invalid_egress_capability
  unfolding validate_parts
  wrong_parts now payload signature e = rw (validate_parts, e) refl

  undecoded_parts :
      (now : ℕ) (payload signature : List ℕ)
      → (is_empty payload || not (signature == sign payload)) ≡ false
      → decode payload ≡ none
      → validate_parts encode decode sign now (some (payload, signature))
        ≡ err invalid_egress_capability
  unfolding validate_parts
  undecoded_parts now payload signature e missing = rw (validate_parts, e) (rw missing refl)

  decoded_parts :
      (now : ℕ) (payload signature : List ℕ) (f : Fields)
      → (is_empty payload || not (signature == sign payload)) ≡ false
      → decode payload ≡ some f
      → validate_parts encode decode sign now (some (payload, signature)) ≡ validated_payload now f
  unfolding validate_parts
  decoded_parts now payload signature f e found = rw (validate_parts, e) (rw found refl)

  parts_signed :
      (now : ℕ) (o : Option (List ℕ × List ℕ)) (c : ValidatedCapability)
      → validate_parts encode decode sign now o ≡ ok c
      → (payload : List ℕ) × (f : Fields) × (o ≡ some (payload, sign payload))
        × (decode payload ≡ some f)
        × (validated_payload now f ≡ ok c)
  parts_signed now none c h = cc (no_parts now, h)
  parts_signed now (some (payload, signature)) c h =
      elim (Bool-cases (is_empty payload || not (signature == sign payload))) [
        | inl e ↦ cc (wrong_parts now payload signature e, h)
        | inr e ↦
            let same : signature ≡ sign payload =
              (text_beq_iff signature (sign payload)).0 (ground arith) in
            elim (Option-cases (decode payload)) [
              | inl missing ↦ cc (undecoded_parts now payload signature e missing, h)
              | inr (f, found) ↦ (
                payload,
                f,
                ap (λ (x : List ℕ). some (payload, x)) same,
                found,
                sym (decoded_parts now payload signature f e found) ∙ h,
              )
            ]
      ]

  -- A token is accepted only with the signature of its payload on it, and as what its payload says.
  pub validate-signed :
      (now : ℕ) (token : List ℕ) (c : ValidatedCapability)
      → validate_ephemeral_egress_capability encode decode sign now token ≡ ok c
      → (payload : List ℕ) × (f : Fields) × (split_last_dot (drop 5 token)
          ≡ some (payload, sign payload))
        × (decode payload ≡ some f)
        × (validated_payload now f ≡ ok c)
  unfolding validate_ephemeral_egress_capability
  validate-signed now token c h = parts_signed now (split_last_dot (drop 5 token)) c h

  -- If the payload of a new capability can be decoded again and is not empty, and its signature holds
  -- no dot, the token is accepted for what it was created for until its time has passed; each of its
  -- TCP destinations is to name a host and a server.
  pub validate-create :
      (c : ValidatedCapability) (now later ttl_seconds : ℕ)
      → decode (encode (payload_fields c now ttl_seconds)) ≡ some (payload_fields c now ttl_seconds)
      → is_empty (encode (payload_fields c now ttl_seconds)) ≡ false
      → has_no_dot (sign (encode (payload_fields c now ttl_seconds))) ≡ true
      → All Named c.tcp_tls_allowlist
      → later < now + max 5 ttl_seconds * 1000
      → validate_ephemeral_egress_capability encode decode sign later
          (create_ephemeral_egress_capability encode decode sign c now ttl_seconds)
        ≡ ok c
  unfolding validate_ephemeral_egress_capability create_ephemeral_egress_capability
  validate-create c now later ttl_seconds decodes filled dotless named fresh =
      let payload = encode (payload_fields c now ttl_seconds) in
      let own : (sign payload == sign payload) ≡ true =
        (text_beq_iff (sign payload) (sign payload)).1 refl in
      let passes : (is_empty payload || not (sign payload == sign payload)) ≡ false =
        rw (filled, own) refl in
      rw (validate_ephemeral_egress_capability, split-signed payload (sign payload) dotless)
        (decoded_parts later payload (sign payload) (payload_fields c now ttl_seconds) passes
            decodes
          ∙ payload_accepted c now later ttl_seconds named fresh)
