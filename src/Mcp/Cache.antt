-- ===== src/Mcp/Cache.antt =====
-- `BoundedValidatorCache` of apps/server/src/domain/mcp-policy.ts. `compile` makes a validator of a
-- schema or fails, and `digest` names the schema.
use kajovo_cml.Prelude.{
  ℕ, Bool, not, ◌==◌, text_eq, Option, none, some, List, [], ◌∷◌, ◌++◌, find, filter, ltb, length,
  or_else, if◌then◌else◌, Result, ok, err,
}
use kajovo_cml.Security.Text.{codes}
use kajovo_cml.ComponentAuth.Decide.{starts_with}

pub data Kind : Type 0 where
  input output : Kind

pub record CacheServer : Type 0 where
  pub id : List ℕ
  pub active_revision_id : Option (List ℕ)
  pub contract_version : List ℕ
  pub manifest_digest : List ℕ

abbrev pub kind_text : Kind → List ℕ
kind_text input = codes "input"
kind_text output = codes "output"

-- The text under which a validator is kept.
pub cache_key : CacheServer → Kind → List ℕ → List ℕ
cache_key server kind schema_digest =
    server.id
    ++ b':' ∷ or_else server.active_revision_id server.contract_version
    ++ b':' ∷ server.manifest_digest
    ++ b':' ∷ schema_digest
    ++ b':' ∷ kind_text kind

-- The entries in the order of their insertion, as a `Map` keeps them.
pub record ValidatorCache (V : Type 0) : Type 0 where
  pub maximum_size : ℕ
  pub entries : List (List ℕ × V)

-- The constructor refuses a size below one.
pub validator_cache : {V : Type 0} → ℕ → Option (ValidatorCache V)
validator_cache maximum_size =
    if ltb maximum_size 1 then none else some (record { maximum_size = maximum_size; entries = [] })

module _ {V : Type 0} where
  abbrev pub is_at : List ℕ → List ℕ × V → Bool
  is_at key entry = entry.0 == key

  abbrev pub without : List ℕ → List (List ℕ × V) → List (List ℕ × V)
  without key entries = filter (λ (e : List ℕ × V). not (is_at key e)) entries

  -- The loop that drops the oldest entry while there are too many.
  unfoldable pub evict : ℕ → List (List ℕ × V) → List (List ℕ × V)
  evict maximum_size [] = []
  evict maximum_size (e ∷ entries) =
      let rest = evict maximum_size entries in
      if ltb maximum_size (length (e ∷ entries)) then rest else e ∷ entries

  -- `get` at a key, with what compiling the schema comes to.
  unfoldable pub get :
      {E : Type 0} → Result E V → ValidatorCache V → List ℕ → Result E (ValidatorCache V × V)
  unfolding evict
  get compiled cache key = elim (find (is_at key) cache.entries) [
    | some cached ↦
        ok (record cache { entries = without key cache.entries ++ (key, cached.1) ∷ [] }, cached.1)
    | none ↦ elim compiled [
      | err e ↦ err e
      | ok validator ↦ ok (
        record cache {
          entries = evict cache.maximum_size (cache.entries ++ (key, validator) ∷ []);
        },
        validator,
      )
    ]
  ]

  unfoldable pub invalidate_server : ValidatorCache V → List ℕ → ValidatorCache V
  unfolding starts_with
  invalidate_server cache server_id = record cache {
    entries =
        filter (λ (e : List ℕ × V). not (starts_with (server_id ++ b':' ∷ []) (e.0))) cache.entries;
  }
