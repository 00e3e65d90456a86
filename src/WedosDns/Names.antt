-- ===== src/WedosDns/Names.antt =====
-- The names and the ownership marker of a DNS operation
-- (apps/server/src/tls/wedos-dns-operation.ts), as lists of code units.
use kajovo_cml.Prelude.{
  ℕ, zero, suc, ◌+◌, ◌-◌, ◌/◌, ◌%◌, take, ltb, Bool, false, not, ◌&&◌, ◌||◌, ◌==◌, nat_eq, text_eq,
  Option, none, some, List, [], ◌∷◌, ◌++◌, map, filter, all, length, leb, if◌then◌else◌, Result, ok,
  err,
}
use kajovo_cml.Security.Text.{codes, is_space}

abbrev pub Text : Type 0
Text = List ℕ

-- What the code throws: `message`, and the number that a fault of the API carries.
pub record Error : Type 0 where
  pub message : Text
  pub code : Option ℕ

abbrev pub error : Text → Error
error message = record { message = message; code = none }

-- `toLowerCase` as far as a later test can tell: the Kelvin sign becomes a `k`, and every other code
-- unit outside ASCII stays outside it.
unfoldable pub lower : ℕ → ℕ
lower c = if leb b'A' c && leb c b'Z' then c + 32 else if c == 0x212a then b'k' else c

-- `toUpperCase` on the identifiers that the provider gives, which are ASCII.
unfoldable pub upper : ℕ → ℕ
upper c = if leb b'a' c && leb c b'z' then b'A' + (c - b'a') else c

abbrev pub upper_text : Text → Text
upper_text = map upper

unfoldable pub without_spaces : Text → Text
unfolding is_space
without_spaces [] = []
without_spaces (c ∷ text) = if is_space c then without_spaces text else c ∷ text

-- A text without the code units at its end that pass a test.
unfoldable pub trimmed_end : (ℕ → Bool) → Text → Text
trimmed_end p [] = []
trimmed_end p (c ∷ text) = elim (trimmed_end p text) [
  | [] ↦ if p c then [] else c ∷ []
  | ◌∷◌ d rest ↦ c ∷ d ∷ rest
]

unfoldable pub trim : Text → Text
unfolding without_spaces trimmed_end is_space
trim text = trimmed_end is_space (without_spaces text)

-- `replace(/\.$/, "")`.
unfoldable pub without_last_dot : Text → Text
without_last_dot [] = []
without_last_dot (c ∷ []) = if c == b'.' then [] else c ∷ []
without_last_dot (c ∷ d ∷ text) = c ∷ without_last_dot (d ∷ text)

-- The parts between the dots.
unfoldable pub labels : Text → List Text
labels [] = [] ∷ []
labels (c ∷ text) = elim (labels text) [
  | [] ↦ []
  | ◌∷◌ l rest ↦ if c == b'.' then [] ∷ l ∷ rest else (c ∷ l) ∷ rest
]

-- `[a-z0-9]`.
unfoldable pub is_alphanumeric : ℕ → Bool
is_alphanumeric c = (leb b'a' c && leb c b'z') || (leb b'0' c && leb c b'9')

abbrev is_last_alphanumeric : Text → Bool
is_last_alphanumeric [] = false
is_last_alphanumeric (c ∷ []) = is_alphanumeric c
is_last_alphanumeric (c ∷ d ∷ text) = is_last_alphanumeric (d ∷ text)

abbrev is_first_alphanumeric : Text → Bool
is_first_alphanumeric [] = false
is_first_alphanumeric (c ∷ text) = is_alphanumeric c

-- `[a-z0-9](?:[a-z0-9-]{0,61}[a-z0-9])?`.
unfoldable pub is_zone_label : Text → Bool
unfolding is_alphanumeric
is_zone_label label =
    is_first_alphanumeric label
    && is_last_alphanumeric label
    && all (λ c. is_alphanumeric c || c == b'-') label
    && leb (length label) 63

unfoldable pub is_zone : Text → Bool
unfolding labels is_zone_label
is_zone zone = leb 2 (length (labels zone)) && all is_zone_label (labels zone)

-- `[a-z0-9_-]+`.
unfoldable pub is_record_label : Text → Bool
unfolding is_alphanumeric
is_record_label label =
    leb 1 (length label) && all (λ c. is_alphanumeric c || c == b'_' || c == b'-') label

unfoldable pub normalized : Text → Text
unfolding trim lower without_last_dot
normalized value = without_last_dot (map lower (trim value))

unfoldable pub normalize_zone : Text → Result Error Text
unfolding normalized is_zone
normalize_zone value =
    let zone = normalized value in
    if is_zone zone then ok zone else err (error (codes "wedos_dns_zone_invalid"))

unfoldable pub normalize_record_name : Text → Result Error Text
unfolding normalized labels is_record_label
normalize_record_name value =
    let record_name = normalized value in
    if all is_record_label (labels record_name)
    then ok record_name
    else err (error (codes "wedos_dns_record_name_invalid"))

pub data Purpose : Type 0 where
  acme preflight_test : Purpose

abbrev pub purpose_name : Purpose → Text
purpose_name acme = codes "acme"
purpose_name preflight_test = codes "wapitest"

unfoldable pub is_hex : ℕ → Bool
is_hex c = (leb b'0' c && leb c b'9') || (leb b'a' c && leb c b'f')

-- `/^[0-9a-f]{32}$/`.
unfoldable pub is_compact_id : Text → Bool
unfolding is_hex
is_compact_id text = length text == 32 && all is_hex text

unfoldable pub operation_author_comment : Purpose → Text → Result Error Text
unfolding lower is_compact_id
operation_author_comment purpose correlation_id =
    let compact = map lower (filter (λ c. not (c == b'-')) correlation_id) in
    if is_compact_id compact
    then ok (codes "kcml" ++ purpose_name purpose ++ compact)
    else err (error (codes "wedos_dns_correlation_id_invalid"))

-- What is left of a text behind a literal.
unfoldable pub behind : Text → Text → Option Text
behind [] text = some text
behind (p ∷ ps) [] = none
behind (p ∷ ps) (c ∷ text) = if c == p then behind ps text else none

unfoldable pub parse_author_comment : Text → Purpose → Bool
unfolding behind is_compact_id
parse_author_comment value purpose = elim (behind (codes "kcml" ++ purpose_name purpose) value) [
  | none ↦ false
  | some rest ↦ is_compact_id rest
]

-- The code units that `safeErrorCode` keeps: `[a-z0-9_.:-]` with the flag `i`.
unfoldable pub is_safe : ℕ → Bool
is_safe c =
    (leb b'a' c && leb c b'z')
    || (leb b'A' c && leb c b'Z')
    || (leb b'0' c && leb c b'9')
    || c == b'_'
    || c == b'.'
    || c == b':'
    || c == b'-'

-- The decimal digits of a number; a number has at most as many as itself and one.
digits : ℕ → ℕ → Text
digits zero n = []
digits (suc fuel) n =
    let rest = digits fuel (n / 10) in
    if ltb n 10 then (b'0' + n) ∷ [] else rest ++ (b'0' + n % 10) ∷ []

unfoldable pub decimal : ℕ → Text
unfolding digits
decimal n = digits (suc n) n

abbrev pub message_or_unknown : Text → Text
message_or_unknown [] = codes "unknown"
message_or_unknown (c ∷ text) = c ∷ text

unfoldable pub safe_error_code : Error → Text
unfolding decimal is_safe
safe_error_code e = elim e.code [
  | some n ↦ codes "wapi_" ++ decimal n
  | none ↦ message_or_unknown (take 120 (map (λ c. if is_safe c then c else b'_') e.message))
]
