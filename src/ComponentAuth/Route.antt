-- ===== src/ComponentAuth/Route.antt =====
-- Which routes a permission's pattern covers (apps/server/src/domain/component-auth.ts).
mod Tests
use mathlib.Core.List.{append_assoc}
use kajovo_cml.Prelude.{
  ℕ, Bool, true, false, not, ◌&&◌, ◌||◌, ◌==◌, nat_eq, nat_beq_iff, List, [], ◌∷◌, ◌++◌, map, ◌≡◌,
  ◌↔◌, refl, arith, text_beq, text_beq_iff, all, Bool-cases, inl, inr, if◌then◌else◌, ap, sym, ◌∙◌,
}

-- What a pattern of `like` is made of.
pub data LikeItem : Type 0 where
  any_text : LikeItem
  any_char : LikeItem
  literal : ℕ → LikeItem

-- `%`, `_`, or the character itself.
unfoldable pub like_item : ℕ → LikeItem
like_item c = if c == b'%' then any_text else if c == b'_' then any_char else literal c

-- The items of a pattern; the flag says that a backslash stands before it, which takes the next
-- character as it is.
pub like_items : Bool → List ℕ → List LikeItem
unfolding like_item
like_items escaped [] = []
like_items true (c ∷ p) = literal c ∷ like_items false p
like_items false (c ∷ p) = if c == 92 then like_items true p else like_item c ∷ like_items false p

-- Whether a test passes on some rest of a text.
pub any_rest : (List ℕ → Bool) → List ℕ → Bool
any_rest p [] = p []
any_rest p (c ∷ s) = p (c ∷ s) || any_rest p s

pub like_match : List LikeItem → List ℕ → Bool
unfolding any_rest
like_match [] [] = true
like_match [] (d ∷ s) = false
like_match (any_text ∷ p) s = any_rest (λ (t : List ℕ). like_match p t) s
like_match (any_char ∷ p) [] = false
like_match (any_char ∷ p) (d ∷ s) = like_match p s
like_match (literal c ∷ p) [] = false
like_match (literal c ∷ p) (d ∷ s) = c == d && like_match p s

-- `right(pattern,2)='/*'`.
pub is_subtree : List ℕ → Bool
is_subtree [] = false
is_subtree (c ∷ p) = text_beq (c ∷ p) (b'/' ∷ b'*' ∷ []) || is_subtree p

-- `left(pattern,length(pattern)-1)`.
pub drop_last : List ℕ → List ℕ
drop_last [] = []
drop_last (c ∷ []) = []
drop_last (c ∷ d ∷ p) = c ∷ drop_last (d ∷ p)

-- The condition of the query on `route_pattern`.
unfoldable pub route_matches : List ℕ → List ℕ → Bool
unfolding like_items like_match is_subtree drop_last
route_matches pattern route =
    text_beq route pattern
    || (is_subtree pattern && like_match (like_items false (drop_last pattern ++ b'%' ∷ [])) route)

-- A character that stands for itself in a pattern.
abbrev pub is_plain : ℕ → Bool
is_plain c = not (c == b'%') && not (c == b'_') && not (c == 92)

plain-like_items :
    (q p : List ℕ)
    → all is_plain q ≡ true
    → like_items false (q ++ p) ≡ map literal q ++ like_items false p
unfolding like_items like_item
plain-like_items [] p h = refl
plain-like_items (c ∷ q) p h = elim (Bool-cases (c == 92)) [
  | inl e ↦ ground arith
  | inr e ↦ elim (Bool-cases (c == b'%')) [
    | inl e₁ ↦ ground arith
    | inr e₁ ↦ elim (Bool-cases (c == b'_')) [
      | inl e₂ ↦ ground arith
      | inr e₂ ↦ rw (e, e₁, e₂) (ap (λ l. literal c ∷ l) (plain-like_items q p (ground arith)))
    ]
  ]
]

any_rest-end : (s : List ℕ) → any_rest (λ (t : List ℕ). like_match [] t) s ≡ true
unfolding any_rest like_match
any_rest-end [] = refl
any_rest-end (c ∷ s) = any_rest-end s

prefix-like_match_iff :
    (q route : List ℕ)
    → (like_match (map literal q ++ any_text ∷ []) route ≡ true)
      ↔ ((rest : List ℕ) × (route ≡ q ++ rest))
unfolding like_match
prefix-like_match_iff [] route = (λ h. (route, refl), λ h. any_rest-end route)
prefix-like_match_iff (c ∷ q) [] = (λ h. cc, λ h. cc (h.1))
prefix-like_match_iff (c ∷ q) (d ∷ s) = (
  λ h.
      let (rest, e) = (prefix-like_match_iff q s).0 (ground arith) in
      (rest, cc ((nat_beq_iff c d).0 (ground arith), e)),
  λ h.
      let same : c ≡ d = cc (h.1) in
      let tail : s ≡ q ++ h.0 = cc (h.1) in
      rw ((nat_beq_iff c d).1 same, (prefix-like_match_iff q s).1 (h.0, tail)) refl,
)

subtree_shape : (base : List ℕ) → is_subtree (base ++ b'/' ∷ b'*' ∷ []) ≡ true
unfolding is_subtree
subtree_shape [] = refl
subtree_shape (c ∷ base) = ground (arith, subtree_shape base)

dropped_shape : (base : List ℕ) → drop_last (base ++ b'/' ∷ b'*' ∷ []) ≡ base ++ b'/' ∷ []
unfolding drop_last
dropped_shape [] = refl
dropped_shape (c ∷ []) = refl
dropped_shape (c ∷ d ∷ base) = ap (λ l. c ∷ l) (dropped_shape (d ∷ base))

slashed_plain : (base : List ℕ) → all is_plain base ≡ true → all is_plain (base ++ b'/' ∷ []) ≡ true
slashed_plain [] h = refl
slashed_plain (c ∷ base) h = ground (arith, slashed_plain base)

below_iff :
    (base route : List ℕ)
    → all is_plain base ≡ true
    → (like_match (like_items false ((base ++ b'/' ∷ []) ++ b'%' ∷ [])) route ≡ true)
      ↔ ((rest : List ℕ) × (route ≡ base ++ b'/' ∷ rest))
unfolding like_items like_item
below_iff base route h =
    let below = prefix-like_match_iff (base ++ b'/' ∷ []) route in
    rw (plain-like_items (base ++ b'/' ∷ []) (b'%' ∷ []) (slashed_plain base h)) (
      λ e. let (rest, same) = below.0 e in (rest, same ∙ append_assoc base (b'/' ∷ []) rest),
      λ e. below.1 (e.0, e.1 ∙ sym (append_assoc base (b'/' ∷ []) (e.0))),
    )

-- A pattern that ends in `/*` and has no other wildcard covers exactly the routes below its stem.
pub route_matches-subtree_iff :
    (base route : List ℕ)
    → all is_plain base ≡ true
    → (route_matches (base ++ b'/' ∷ b'*' ∷ []) route ≡ true)
      ↔ ((rest : List ℕ) × (route ≡ base ++ b'/' ∷ rest))
unfolding route_matches
route_matches-subtree_iff base route h =
    let below = below_iff base route h in
    rw (subtree_shape base, dropped_shape base)
      (
        λ e. elim (Bool-cases (text_beq route (base ++ b'/' ∷ b'*' ∷ []))) [
          | inl same ↦ (b'*' ∷ [], (text_beq_iff route _).0 same)
          | inr other ↦ below.0 (ground arith)
        ],
        λ e. ground (arith, below.1 e),
      )
