-- ===== src/Credentials/External.antt =====
-- The operations of an external API and the evidence of its probes
-- (apps/server/src/domain/external-api.ts and managed-service.ts). The parameters that a match takes from
-- the path, which the decision does not use, are left out, and with them the error of a broken escape.
use kajovo_cml.Prelude.{
  ℕ, zero, suc, ◌-◌, Bool, true, false, not, ◌&&◌, ◌||◌, ◌==◌, nat_eq, text_eq, string_eq, Option,
  none, some, String, List, [], ◌∷◌, map, leb, ltb, if◌then◌else◌,
}

-- The parts of a manifest that decide on a call.
pub record ExternalOperation : Type 0 where
  pub operation_id : String
  pub method : List ℕ
  pub path : List ℕ
  pub required_scopes : List (List ℕ)

pub record Manifest : Type 0 where
  pub stale_after_seconds : ℕ
  pub operations : List ExternalOperation

pub data Piece : Type 0 where
  literal : ℕ → Piece
  hole : Piece

-- `[A-Za-z0-9_]`.
abbrev is_key : ℕ → Bool
is_key c =
    (leb b'a' c && leb c b'z')
    || (leb b'A' c && leb c b'Z')
    || (leb b'0' c && leb c b'9')
    || c == b'_'

-- How long a match of `\{[A-Za-z0-9_]+\}` behind its brace is, 0 for none; `any_key` tells whether a
-- code unit of the key has been read.
unfoldable pub key_length : Bool → List ℕ → ℕ
key_length any_key [] = 0
key_length any_key (c ∷ text) =
    let rest = key_length true text in
    if is_key c then (if rest == 0 then 0 else suc rest) else if any_key && c == b'}' then 1 else 0

-- The pattern that `templatePattern` makes of a path without `*`, which its escapes leave out; the number
-- says how much of a key is still to be passed over.
unfoldable pub template_pattern : ℕ → List ℕ → List Piece
unfolding key_length
template_pattern skip [] = []
template_pattern (suc skip) (c ∷ text) = template_pattern skip text
template_pattern zero (c ∷ text) =
    let length = if c == b'{' then key_length false text else 0 in
    let rest = template_pattern length text in if length == 0 then literal c ∷ rest else hole ∷ rest

-- A hole takes one or more code units other than a slash.
unfoldable pub matches_pattern : List Piece → List ℕ → Bool
matches_pattern [] [] = true
matches_pattern [] (c ∷ text) = false
matches_pattern (literal d ∷ pieces) [] = false
matches_pattern (hole ∷ pieces) [] = false
matches_pattern (literal d ∷ pieces) (c ∷ text) = c == d && matches_pattern pieces text
matches_pattern (hole ∷ pieces) (c ∷ text) =
    let here = matches_pattern pieces text in
    let further = matches_pattern (hole ∷ pieces) text in not (c == b'/') && (here || further)

-- `toUpperCase` of a method.
abbrev upper : ℕ → ℕ
upper c = if leb b'a' c && leb c b'z' then c - 32 else c

unfoldable pub match_external_api_operation :
    List ExternalOperation → List ℕ → List ℕ → Option ExternalOperation
unfolding template_pattern matches_pattern
match_external_api_operation [] method path = none
match_external_api_operation (operation ∷ operations) method path =
    if operation.method == map upper method
      && matches_pattern (template_pattern 0 operation.path) path
    then some operation
    else match_external_api_operation operations method path

pub data ProbeType : Type 0 where
  health readiness tls acceptance internal_error : ProbeType

pub data ProbeStatus : Type 0 where
  passed stale failed : ProbeStatus

-- `managed_service_probe_result`.
pub record Probe : Type 0 where
  pub id : ℕ
  pub managed_service_id : ℕ
  pub probe_type : ProbeType
  pub status : ProbeStatus
  pub checked_at : ℕ

abbrev type_number : ProbeType → ℕ
type_number health = 0
type_number readiness = 1
type_number tls = 2
type_number acceptance = 3
type_number internal_error = 4

abbrev newer : Probe → Option Probe → Option Probe
newer p none = some p
newer p (some q) =
    if ltb q.checked_at p.checked_at || (q.checked_at == p.checked_at && ltb q.id p.id)
    then some p
    else some q

-- `distinct on (probe_type) … order by checked_at desc, id desc`, for one type.
unfoldable pub latest_probe : ℕ → ProbeType → List Probe → Option Probe
latest_probe service_id kind [] = none
latest_probe service_id kind (p ∷ probes) =
    let rest = latest_probe service_id kind probes in
    if p.managed_service_id == service_id && type_number p.probe_type == type_number kind
    then newer p rest
    else rest
