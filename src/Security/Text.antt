-- ===== src/Security/Text.antt =====
-- The four `String.prototype.replace` calls of `redact` in apps/server/src/security/secrets.ts, over
-- the code units of a text.
mod Tests
use Prim.Native.Char.{code}
use kajovo_cml.Prelude.{
  ℕ, zero, suc, ◌+◌, ◌-◌, Bool, false, not, ◌&&◌, ◌||◌, Option, none, some, List, [], ◌∷◌, ◌++◌,
  String, ltb, leb, ◌==◌, nat_eq, if◌then◌else◌, take, length,
}

-- The code units of a literal of the source.
abbrev pub codes : String → List ℕ
codes String.[] = []
codes (String.◌∷◌ c s) = code c ∷ codes s

abbrev pub redacted_mark : List ℕ
redacted_mark = codes "[REDACTED]"

-- `\s`.
unfoldable pub is_space : ℕ → Bool
is_space c =
    (leb 9 c && leb c 13)
    || c == 32
    || c == 0xa0
    || c == 0x1680
    || (leb 0x2000 c && leb c 0x200a)
    || c == 0x2028
    || c == 0x2029
    || c == 0x202f
    || c == 0x205f
    || c == 0x3000
    || c == 0xfeff

pub is_line_end : ℕ → Bool
is_line_end c = c == 10 || c == 13

-- `[A-Za-z0-9_]`.
pub is_word : ℕ → Bool
is_word c =
    (leb b'a' c && leb c b'z')
    || (leb b'A' c && leb c b'Z')
    || (leb b'0' c && leb c b'9')
    || c == b'_'

-- The flag `i`: a letter of a pattern is given in lower case.
unfoldable pub lower : ℕ → ℕ
lower c = if leb b'A' c && leb c b'Z' then c + 32 else c

-- What is left of a text behind a literal, read without regard to case.
unfoldable pub strip_prefix : List ℕ → List ℕ → Option (List ℕ)
unfolding lower
strip_prefix [] text = some text
strip_prefix (p ∷ ps) [] = none
strip_prefix (p ∷ ps) (c ∷ text) = if lower c == p then strip_prefix ps text else none

-- The length of the longest prefix whose code units pass a test.
pub run_length : (ℕ → Bool) → List ℕ → ℕ
run_length p [] = 0
run_length p (c ∷ text) = if p c then suc (run_length p text) else 0

-- The length of a match of `\s*[^\r\n]+`, 0 for none: the spaces are given back where they would
-- leave nothing for the second part.
pub line_match : List ℕ → ℕ
unfolding is_space is_line_end run_length
line_match [] = 0
line_match (c ∷ text) =
    let rest = line_match text in
    if is_space c
    then (if ltb 0 rest then suc rest else if is_line_end c then 0 else 1)
    else suc (run_length (λ d. not (is_line_end d)) text)

-- The length of a match of `NAME:\s*[^\r\n]+`.
pub header_match : List ℕ → List ℕ → ℕ
unfolding strip_prefix line_match
header_match name text = elim (strip_prefix name text) [
  | none ↦ 0
  | some tail ↦ let n = line_match tail in if n == 0 then 0 else length name + n
]

-- `[^\s,;]`.
pub is_credential : ℕ → Bool
unfolding is_space
is_credential c = not (is_space c || c == b',' || c == b';')

abbrev pub after_run : ℕ → List ℕ → List ℕ
after_run zero text = text
after_run (suc n) [] = []
after_run (suc n) (c ∷ text) = after_run n text

-- The lengths of the two groups of a match of `(Bearer\s+)([^\s,;]+)`.
pub bearer_match : List ℕ → ℕ × ℕ
unfolding strip_prefix run_length is_space is_credential
bearer_match text = elim (strip_prefix (codes "bearer") text) [
  | none ↦ (0, 0)
  | some tail ↦
      let spaces = run_length is_space tail in
      let token = run_length is_credential (after_run spaces tail) in
      if spaces == 0 || token == 0 then (0, 0) else (6 + spaces, token)
]

-- `[A-Za-z0-9_-]`.
pub is_token : ℕ → Bool
unfolding is_word
is_token c = is_word c || c == b'-'

-- How much of a run of `[A-Za-z0-9_-]` stands in front of its last word boundary.
pub token_length : List ℕ → ℕ
unfolding is_token is_word
token_length [] = 0
token_length (c ∷ text) =
    let rest = token_length text in
    if is_token c then (if ltb 0 rest then suc rest else if is_word c then 1 else 0) else 0

abbrev pub is_word_end : Option ℕ → Bool
is_word_end none = false
is_word_end (some c) = is_word c

-- A match of `\bkc[ie]_[A-Za-z0-9_-]{40,}\b` behind the code unit `before`; this pattern has no `i`.
pub capability_match : Option ℕ → List ℕ → ℕ
unfolding token_length is_word
capability_match before (k ∷ c ∷ kind ∷ bar ∷ text) =
    let n = token_length text in
    if not (is_word_end before)
      && k == b'k'
      && c == b'c'
      && (kind == b'i' || kind == b'e')
      && bar == b'_'
      && leb 40 n
    then 4 + n
    else 0
capability_match before text = 0

-- `text.replace(pattern, …)` with the flag `g`: `found` measures the match at a position, 0 for none,
-- and the count says how much of the last match is still to be passed over.
pub replace_all : (Option ℕ → List ℕ → ℕ) → (List ℕ → List ℕ) → Option ℕ → ℕ → List ℕ → List ℕ
replace_all found with before skip [] = []
replace_all found with before (suc skip) (c ∷ text) = replace_all found with (some c) skip text
replace_all found with before zero (c ∷ text) =
    let n = found before (c ∷ text) in
    let rest = replace_all found with (some c) (n - 1) text in
    if n == 0 then c ∷ rest else with (take n (c ∷ text)) ++ rest

abbrev bearer_length : List ℕ → ℕ
bearer_length text = (bearer_match text).0 + (bearer_match text).1

-- The text branch of `redact`.
unfoldable pub redact_text : List ℕ → List ℕ
unfolding replace_all capability_match bearer_match header_match
redact_text text =
    replace_all capability_match (λ m. redacted_mark) none 0
      (replace_all (λ b t. bearer_length t) (λ m. take (bearer_match m).0 m ++ redacted_mark) none 0
        (replace_all (λ b t. header_match (codes "cookie:") t)
          (λ m. codes "cookie: " ++ redacted_mark) none 0
          (replace_all (λ b t. header_match (codes "authorization:") t)
            (λ m. codes "authorization: " ++ redacted_mark) none 0 text)))
