-- ===== src/Mcp/Recency.antt =====
-- What the cache of validators keeps, and for how long (mcp-policy.ts).
use kajovo_cml.Prelude.{
  ℕ, suc, ◌≤◌, true, false, not, text_eq, text_beq_iff, none, some, List, [], ◌∷◌, ◌++◌, find,
  length, length-append, length-filter_le, ltb, ◌≡◌, refl, subst, ◌⊎◌, inl, inr, arith, Bool-cases,
  Option-cases, Result, ok, err,
}
use kajovo_cml.Mcp.Cache.{ValidatorCache, evict, get, is_at, without}

module _ {V : Type 0} where
  evict-bounded : (size : ℕ) (entries : List (List ℕ × V)) → length (evict size entries) ≤ size
  unfolding evict
  evict-bounded size [] = omega arith
  evict-bounded size (e ∷ entries) = ground (arith, evict-bounded size entries)

  -- An entry that is found counts once more than what is left without its key.
  without_shorter :
      (key : List ℕ) (entries : List (List ℕ × V)) (e : List ℕ × V)
      → find (is_at key) entries ≡ some e
      → suc (length (without key entries)) ≤ length entries
  without_shorter key [] e h = cc
  without_shorter key (d ∷ entries) e h = elim (Bool-cases (is_at key d)) [
    | inl at ↦ rw at (
        let less = length-filter_le (λ (x : List ℕ × V). not (is_at key x)) entries in
        omega (arith, less))
    | inr off ↦
        let rest = without_shorter key entries e (ground arith) in rw off (omega (arith, rest))
  ]

  self_found : (key : List ℕ) (v : V) → is_at key (key, v) ≡ true
  self_found key v = (text_beq_iff key key).1 refl

  find-without :
      (key : List ℕ) (v : V) (entries : List (List ℕ × V))
      → find (is_at key) (without key entries ++ (key, v) ∷ []) ≡ some (key, v)
  find-without key v [] = rw (self_found key v) refl
  find-without key v (d ∷ entries) = elim (Bool-cases (is_at key d)) [
    | inl at ↦ rw at (find-without key v entries)
    | inr off ↦ rw off (rw off (find-without key v entries))
  ]

  find-last :
      (key : List ℕ) (v : V) (entries : List (List ℕ × V))
      → find (is_at key) entries ≡ none
      → find (is_at key) (entries ++ (key, v) ∷ []) ≡ some (key, v)
  find-last key v [] h = rw (self_found key v) refl
  find-last key v (d ∷ entries) h =
      let off : is_at key d ≡ false = ground arith in
      rw off (find-last key v entries (ground arith))

  find-evict :
      (size : ℕ) (key : List ℕ) (v : V) (entries : List (List ℕ × V))
      → 1 ≤ size
      → find (is_at key) entries ≡ none
      → find (is_at key) (evict size (entries ++ (key, v) ∷ [])) ≡ some (key, v)
  unfolding evict
  find-evict size key v [] wide h =
      let stays : ltb size 1 ≡ false = ground arith in rw (stays, self_found key v) refl
  find-evict size key v (d ∷ entries) wide h =
      let off : is_at key d ≡ false = ground arith in
      let rest = find-evict size key v entries wide (ground arith) in
      elim (Bool-cases (ltb size (suc (length (entries ++ (key, v) ∷ []))))) [
        | inl full ↦ rw full rest
        | inr room ↦ rw room (rw off (find-last key v entries (ground arith)))
      ]

  module _ {E : Type 0} (compiled : Result E V) (cache : ValidatorCache V) (key : List ℕ) where
    get_hit :
        (e : List ℕ × V)
        → find (is_at key) cache.entries ≡ some e
        → get compiled cache key
          ≡ ok (record cache { entries = without key cache.entries ++ (key, e.1) ∷ [] }, e.1)
    unfolding get
    get_hit e found = rw (found, get) refl

    get_failed :
        (e : E)
        → find (is_at key) cache.entries ≡ none
        → compiled ≡ err e
        → get compiled cache key ≡ err e
    unfolding get
    get_failed e missing fails = rw (missing, get) (rw (fails, get) refl)

    get_miss :
        (v : V)
        → find (is_at key) cache.entries ≡ none
        → compiled ≡ ok v
        → get compiled cache key
          ≡ ok (
            record cache { entries = evict cache.maximum_size (cache.entries ++ (key, v) ∷ []) },
            v,
          )
    unfolding get
    get_miss v missing made = rw (missing, get) (rw (made, get) refl)

  Result-cases : {E : Type 0} (r : Result E V) → ((v : V) × (r ≡ ok v)) ⊎ ((e : E) × (r ≡ err e))
  Result-cases (ok v) = inl (v, refl)
  Result-cases (err e) = inr (e, refl)

  -- A cache that holds no more than its size holds no more after a validator has been fetched; and a
  -- second fetch of the same validator finds it there, whatever compiling would come to by then.
  pub get_bounded :
      {E : Type 0} (compiled again : Result E V) (cache : ValidatorCache V) (key : List ℕ)
      (r : ValidatorCache V × V)
      → 1 ≤ cache.maximum_size
      → length cache.entries ≤ cache.maximum_size
      → get compiled cache key ≡ ok r
      → (length r.0.entries ≤ r.0.maximum_size)
        × (r.0.maximum_size ≡ cache.maximum_size)
        × ((s : ValidatorCache V) × (get again r.0 key ≡ ok (s, r.1)))
  get_bounded compiled again cache key r wide fits h =
      elim (Option-cases (find (is_at key) cache.entries)) [
        | inr (e, found) ↦
            let kept : ValidatorCache V = record cache {
              entries = without key cache.entries ++ (key, e.1) ∷ [];
            } in
            let same : (kept, e.1) ≡ r = cc (get_hit compiled cache key e found, h) in
            let shorter = without_shorter key cache.entries e found in
            let joined = length-append (without key cache.entries) ((key, e.1) ∷ []) in
            subst
              (λ (x : ValidatorCache V × V).
                (length x.0.entries ≤ x.0.maximum_size)
                × (x.0.maximum_size ≡ cache.maximum_size)
                × ((s : ValidatorCache V) × (get again x.0 key ≡ ok (s, x.1))))
              same
              (
                omega (arith, shorter, joined, fits),
                refl,
                (_, get_hit again kept key (key, e.1) (find-without key (e.1) cache.entries)),
              )
        | inl missing ↦ elim (Result-cases compiled) [
          | inr (e, fails) ↦ cc (get_failed compiled cache key e missing fails, h)
          | inl (v, made) ↦
              let kept : ValidatorCache V = record cache {
                entries = evict cache.maximum_size (cache.entries ++ (key, v) ∷ []);
              } in
              let same : (kept, v) ≡ r = cc (get_miss compiled cache key v missing made, h) in
              subst
                (λ (x : ValidatorCache V × V).
                  (length x.0.entries ≤ x.0.maximum_size)
                  × (x.0.maximum_size ≡ cache.maximum_size)
                  × ((s : ValidatorCache V) × (get again x.0 key ≡ ok (s, x.1))))
                same
                (
                  evict-bounded cache.maximum_size (cache.entries ++ (key, v) ∷ []),
                  refl,
                  (
                    _,
                    get_hit again kept key (key, v)
                        (find-evict cache.maximum_size key v cache.entries wide missing),
                  ),
                )
        ]
      ]
