-- ===== src/Egress/Ephemeral.antt =====
-- The signed capabilities that no table keeps (apps/server/src/domain/egress.ts). Moments are
-- milliseconds. `encode` and `decode` stand for JSON in base64url and `sign` for the keyed digest in
-- base64url: they are not part of this program.
pub mod Tokens
use kajovo_cml.Prelude.{
  ℕ, zero, suc, ◌+◌, ◌-◌, ◌*◌, max, Bool, true, false, ◌&&◌, ◌||◌, not, ◌==◌, nat_eq, text_eq,
  Option, none, some, List, [], ◌∷◌, ◌++◌, leb, if◌then◌else◌, Result, ok, err,
}
use kajovo_cml.Security.Redact.{
  Json, null, bool, num, text, arr, obj, Items, nil, cons, Fields, end, field,
}
use kajovo_cml.Security.Text.{codes}
use kajovo_cml.ComponentAuth.Decide.{starts_with}
use kajovo_cml.JsonRpc.{lookup}
use kajovo_cml.Egress.Capability.{EgressError, invalid_egress_capability}

pub record TcpTlsEntry : Type 0 where
  pub target_host : List ℕ
  pub port : ℕ
  pub servername : List ℕ

-- `ValidatedEgressCapability`, without the ids that an ephemeral one does not have.
pub record ValidatedCapability : Type 0 where
  pub managed_service_id : Option (List ℕ)
  pub allowlist : List (List ℕ)
  pub tcp_tls_allowlist : List TcpTlsEntry
  pub purpose : List ℕ
  pub correlation_id : Option (List ℕ)

abbrev pub texts : List (List ℕ) → Items
texts [] = nil
texts (s ∷ rest) = cons (text s) (texts rest)

abbrev pub entries : List TcpTlsEntry → Items
entries [] = nil
entries (e ∷ rest) =
    cons
      (obj (
        field (codes "targetHost") (text e.target_host) (
          field (codes "port") (num e.port) (
            field (codes "servername") (text e.servername)
              (field (codes "protocol") (text (codes "TCP_TLS")) end)))))
      (entries rest)

abbrev pub optional_text : Option (List ℕ) → Json
optional_text none = null
optional_text (some s) = text s

-- What `createEphemeralEgressCapability` encodes.
unfoldable pub payload_fields : ValidatedCapability → ℕ → ℕ → Fields
payload_fields c now ttl_seconds = field (codes "v") (num 1) (
    field (codes "allowlist") (arr (texts c.allowlist)) (
      field (codes "tcpTlsAllowlist") (arr (entries c.tcp_tls_allowlist)) (
        field (codes "managedServiceId") (optional_text c.managed_service_id) (
          field (codes "correlationId") (optional_text c.correlation_id) (
            field (codes "purpose") (text c.purpose)
              (field (codes "exp") (num (now + max 5 ttl_seconds * 1000)) end))))))

abbrev pub ephemeral_prefix : List ℕ
ephemeral_prefix = codes "kce2_"

-- The text before the last dot and the one behind it.
unfoldable pub split_last_dot : List ℕ → Option (List ℕ × List ℕ)
split_last_dot [] = none
split_last_dot (c ∷ s) =
    let rest = split_last_dot s in
    elim rest [
      | some parts ↦ some (c ∷ parts.0, parts.1)
      | none ↦ if c == b'.' then some ([], s) else none
    ]

-- `filter((entry) => typeof entry === "string")`.
unfoldable pub only_texts : Items → List (List ℕ)
only_texts nil = []
only_texts (cons (text s) rest) = s ∷ only_texts rest
only_texts (cons _ rest) = only_texts rest

abbrev pub text_or_empty : Option Json → List ℕ
text_or_empty (some (text s)) = s
text_or_empty _ = []

-- The value of a text of digits.
unfoldable pub decimal : ℕ → List ℕ → Option ℕ
decimal value [] = some value
decimal value (c ∷ s) =
    let rest = decimal (value * 10 + (c - b'0')) s in
    if leb b'0' c && leb c b'9' then rest else none

-- `Number` of a field; a text in another notation than decimal, an array and an object are no number.
abbrev pub number_of : Option Json → Option ℕ
unfolding decimal
number_of (some (num n)) = some n
number_of (some (text s)) = decimal 0 s
number_of (some null) = some 0
number_of (some (bool true)) = some 1
number_of (some (bool false)) = some 0
number_of _ = none

abbrev pub is_tcp_tls : Option Json → Bool
is_tcp_tls (some (text s)) = s == codes "TCP_TLS"
is_tcp_tls _ = false

abbrev pub is_empty : List ℕ → Bool
is_empty [] = true
is_empty (c ∷ s) = false

abbrev pub checked_entry : List ℕ → List ℕ → Option ℕ → Bool → List TcpTlsEntry
checked_entry host name (some port) true =
    if is_empty host || is_empty name
    then []
    else record { target_host = host; port = port; servername = name } ∷ []
checked_entry host name _ _ = []

-- The callback of `flatMap`.
unfoldable pub tcp_tls_entry : Json → List TcpTlsEntry
unfolding lookup
tcp_tls_entry (obj f) =
    checked_entry (text_or_empty (lookup (codes "targetHost") f))
      (text_or_empty (lookup (codes "servername") f)) (number_of (lookup (codes "port") f))
      (is_tcp_tls (lookup (codes "protocol") f))
tcp_tls_entry _ = []

unfoldable pub tcp_tls_entries : Items → List TcpTlsEntry
unfolding tcp_tls_entry
tcp_tls_entries nil = []
tcp_tls_entries (cons e rest) = tcp_tls_entry e ++ tcp_tls_entries rest

abbrev pub text_or_none : Option Json → Option (List ℕ)
text_or_none (some (text s)) = some s
text_or_none _ = none

abbrev pub items_or_nil : Option Json → Items
items_or_nil (some (arr items)) = items
items_or_nil _ = nil

-- The checks on what a payload holds.
unfoldable pub checked_payload :
    ℕ
    → Fields
    → Option Json
    → Option Json
    → Option Json
    → Option ℕ
    → Result EgressError ValidatedCapability
unfolding only_texts tcp_tls_entries lookup
checked_payload now f (some (num v)) (some (arr allowed)) (some (text purpose)) (some exp) =
    if (v == 1) && not (leb exp now)
    then ok (record {
      managed_service_id = text_or_none (lookup (codes "managedServiceId") f);
      allowlist = only_texts allowed;
      tcp_tls_allowlist = tcp_tls_entries (items_or_nil (lookup (codes "tcpTlsAllowlist") f));
      purpose = purpose;
      correlation_id = text_or_none (lookup (codes "correlationId") f);
    })
    else err invalid_egress_capability
checked_payload now f _ _ _ _ = err invalid_egress_capability

unfoldable pub validated_payload : ℕ → Fields → Result EgressError ValidatedCapability
unfolding checked_payload lookup
validated_payload now f =
    checked_payload now f (lookup (codes "v") f) (lookup (codes "allowlist") f)
      (lookup (codes "purpose") f) (number_of (lookup (codes "exp") f))

-- `slice` behind the prefix.
unfoldable pub drop : ℕ → List ℕ → List ℕ
drop zero s = s
drop (suc n) [] = []
drop (suc n) (c ∷ s) = drop n s

module _ (encode : Fields → List ℕ) (decode : List ℕ → Option Fields) (sign : List ℕ → List ℕ) where
  unfoldable pub create_ephemeral_egress_capability : ValidatedCapability → ℕ → ℕ → List ℕ
  unfolding payload_fields
  create_ephemeral_egress_capability c now ttl_seconds =
      let payload = encode (payload_fields c now ttl_seconds) in
      ephemeral_prefix ++ payload ++ b'.' ∷ sign payload

  -- The checks behind the prefix: the signature first.
  unfoldable pub validate_parts :
      ℕ → Option (List ℕ × List ℕ) → Result EgressError ValidatedCapability
  unfolding validated_payload
  validate_parts now none = err invalid_egress_capability
  validate_parts now (some (payload, signature)) =
      if is_empty payload || not (signature == sign payload)
      then err invalid_egress_capability
      else elim (decode payload) [
        | none ↦ err invalid_egress_capability
        | some f ↦ validated_payload now f
      ]

  unfoldable pub validate_ephemeral_egress_capability :
      ℕ → List ℕ → Result EgressError ValidatedCapability
  unfolding validate_parts split_last_dot drop
  validate_ephemeral_egress_capability now token =
      validate_parts now (split_last_dot (drop 5 token))
