-- ===== src/Prelude/Lists.antt =====
-- Lists measured by native numbers, and searches by Boolean tests, under the library's names.
use Prim.Native.Nat.{ℕ, zero, suc, ◌+◌, ◌≤◌}
use mathlib.Core.Path.{◌≡◌, refl, subst, sym}
use mathlib.Core.Logic.{◌≢◌, ◌⊎◌, inl, inr}
use native.Mathlib.Omega.{arith}
use mathlib.Core.Bool.{Bool, true, false, ◌&&◌, ◌||◌}
use mathlib.Core.List.{List, [], ◌∷◌, ◌++◌, map}
use mathlib.Core.Option.{Option, none, some}
use kajovo_cml.Prelude.Tests.{nat_beq, nat_beq_iff, if◌then◌else◌, Bool-cases}

module _ {ℓ} {A : Type ℓ} where
  abbrev pub length : List A → ℕ
  length [] = 0
  length (x ∷ xs) = suc (length xs)

  pub length-append : (xs ys : List A) → length (xs ++ ys) ≡ length xs + length ys
  length-append [] ys = omega arith
  length-append (x ∷ xs) ys = omega (arith, length-append xs ys)

  abbrev pub take : ℕ → List A → List A
  take zero xs = []
  take (suc n) [] = []
  take (suc n) (x ∷ xs) = x ∷ take n xs

  -- `Array.prototype.some`.
  abbrev pub any : (A → Bool) → List A → Bool
  any p [] = false
  any p (x ∷ xs) = p x || any p xs

  -- `Array.prototype.every`.
  abbrev pub all : (A → Bool) → List A → Bool
  all p [] = true
  all p (x ∷ xs) = p x && all p xs

  -- `Array.prototype.filter`, and `where` of a query.
  abbrev pub filter : (A → Bool) → List A → List A
  filter p [] = []
  filter p (x ∷ xs) = if p x then x ∷ filter p xs else filter p xs

  abbrev pub find : (A → Bool) → List A → Option A
  find p [] = none
  find p (x ∷ xs) = if p x then some x else find p xs

  -- `update … set … where p` of a query.
  abbrev pub update_where : (A → Bool) → (A → A) → List A → List A
  update_where p f [] = []
  update_where p f (x ∷ xs) = (if p x then f x else x) ∷ update_where p f xs

  abbrev pub count_where : (A → Bool) → List A → ℕ
  count_where p [] = 0
  count_where p (x ∷ xs) = if p x then suc (count_where p xs) else count_where p xs

  abbrev pub All {κ} : (A → Type κ) → List A → Type κ
  All P [] = Unit
  All P (x ∷ xs) = P x × All P xs

module _ {ℓ κ} {A : Type ℓ} {B : Type κ} (f : A → B) where
  pub length-map : (xs : List A) → length (map f xs) ≡ length xs
  length-map [] = refl
  length-map (x ∷ xs) = omega (arith, length-map xs)

abbrev pub option_map {ℓ κ} : {A : Type ℓ} {B : Type κ} → (A → B) → Option A → Option B
option_map f none = none
option_map f (some a) = some (f a)

module _ {ℓ} {A : Type ℓ} where
  -- A query behind an update finds the same row, updated where it is concerned.
  pub find-update_where :
      (p q : A → Bool) (f : A → A)
      → ((x : A) → p (f x) ≡ p x)
      → (xs : List A)
      → find p (update_where q f xs) ≡ option_map (λ x. if q x then f x else x) (find p xs)
  find-update_where p q f same [] = refl
  find-update_where p q f same (x ∷ xs) = elim (Bool-cases (q x)) [
    | inl e ↦ elim (Bool-cases (p x)) [
      | inl h ↦ rw (e, same x, h) (rw e)
      | inr h ↦ rw (e, same x, h) (find-update_where p q f same xs)
    ]
    | inr e ↦ elim (Bool-cases (p x)) [
      | inl h ↦ rw (e, h) (rw e)
      | inr h ↦ rw (e, h) (find-update_where p q f same xs)
    ]
  ]

  pub All-update_where {κ μ} :
      (P : A → Type κ) (Q : A → Type μ) (q : A → Bool) (f : A → A)
      → ((x : A) → q x ≡ true → P x → Q (f x))
      → ((x : A) → q x ≡ false → P x → Q x)
      → (xs : List A) → All P xs
      → All Q (update_where q f xs)
  All-update_where P Q q f hit miss [] h = tt
  All-update_where P Q q f hit miss (x ∷ xs) h = elim (Bool-cases (q x)) [
    | inl e ↦ rw e (hit x e h.0, All-update_where P Q q f hit miss xs h.1)
    | inr e ↦ rw e (miss x e h.0, All-update_where P Q q f hit miss xs h.1)
  ]

  pub All-map {κ μ} :
      (P : A → Type κ) (Q : A → Type μ)
      → ((x : A) → P x → Q x)
      → (xs : List A) → All P xs
      → All Q xs
  All-map P Q f [] h = tt
  All-map P Q f (x ∷ xs) h = (f x h.0, All-map P Q f xs h.1)

  -- What a query finds passes its test.
  pub find-passes : (p : A → Bool) (xs : List A) {x : A} → find p xs ≡ some x → p x ≡ true
  find-passes p [] h = cc
  find-passes p (y ∷ xs) h = elim (Bool-cases (p y)) [
    | inl e ↦ ground arith
    | inr e ↦ find-passes p xs (ground arith)
  ]

  pub count_where-update_where_same :
      (p q : A → Bool) (f : A → A)
      → ((x : A) → p (f x) ≡ p x)
      → (xs : List A) → count_where p (update_where q f xs) ≡ count_where p xs
  count_where-update_where_same p q f same [] = refl
  count_where-update_where_same p q f same (x ∷ xs) =
      let rest = count_where-update_where_same p q f same xs in
      elim (Bool-cases (q x)) [
        | inl e ↦ rw (e, same x) (ground (arith, rest))
        | inr e ↦ rw e (ground (arith, rest))
      ]

  pub count_where-update_where_le :
      (p q : A → Bool) (f : A → A)
      → ((x : A) → q x ≡ true → (p (f x) ≡ false) ⊎ (p x ≡ true))
      → (xs : List A) → count_where p (update_where q f xs) ≤ count_where p xs
  count_where-update_where_le p q f less [] = omega arith
  count_where-update_where_le p q f less (x ∷ xs) =
      let rest = count_where-update_where_le p q f less xs in
      elim (Bool-cases (q x)) [
        | inl e ↦ let here = less x e in rw e (ground (arith, rest, here))
        | inr e ↦ rw e (ground (arith, rest))
      ]

  pub find-none-count : (p : A → Bool) (xs : List A) → find p xs ≡ none → count_where p xs ≡ 0
  find-none-count p [] h = refl
  find-none-count p (x ∷ xs) h = elim (Bool-cases (p x)) [
    | inl e ↦ ground arith
    | inr e ↦ rw e (find-none-count p xs (ground arith))
  ]

  pub count_where-filter_le :
      (p q : A → Bool) (xs : List A) → count_where p (filter q xs) ≤ count_where p xs
  count_where-filter_le p q [] = omega arith
  count_where-filter_le p q (x ∷ xs) =
      let rest = count_where-filter_le p q xs in
      elim (Bool-cases (q x)) [
        | inl e ↦ rw e (ground (arith, rest))
        | inr e ↦ rw e (ground (arith, rest))
      ]

  pub count_where_le :
      (p q : A → Bool)
      → ((x : A) → (p x ≡ false) ⊎ (q x ≡ true))
      → (xs : List A) → count_where p xs ≤ count_where q xs
  count_where_le p q h [] = omega arith
  count_where_le p q h (x ∷ xs) =
      let rest = count_where_le p q h xs in let here = h x in ground (arith, rest, here)

  pub length-filter_le : (q : A → Bool) (xs : List A) → length (filter q xs) ≤ length xs
  length-filter_le q [] = omega arith
  length-filter_le q (x ∷ xs) = ground (arith, length-filter_le q xs)

pub find-All {ℓ κ} :
    {A : Type ℓ} (P : A → Type κ) (p : A → Bool) (xs : List A) {x : A}
    → find p xs ≡ some x
    → All P xs
    → P x
find-All P p [] h a = cc
find-All P p (y ∷ xs) {x} h a = elim (Bool-cases (p y)) [
  | inl e ↦
      let same : y ≡ x = cc (subst (λ b. (if b then some y else find p xs) ≡ some x) e h) in
      subst P same (a.0)
  | inr e ↦ find-All P p xs (subst (λ b. (if b then some y else find p xs) ≡ some x) e h) (a.1)
]

pub All-both {ℓ κ μ ν} :
    {A : Type ℓ} (P : A → Type κ) (Q : A → Type μ) (R : A → Type ν)
    → ((x : A) → P x → Q x → R x)
    → (xs : List A) → All P xs
    → All Q xs
    → All R xs
All-both P Q R f [] a b = tt
All-both P Q R f (x ∷ xs) (p, a) (q, b) = (f x p q, All-both P Q R f xs a b)

pub filter-same {ℓ} :
    {A : Type ℓ} (p q : A → Bool) (xs : List A)
    → All (λ x. p x ≡ q x) xs
    → filter p xs ≡ filter q xs
filter-same p q [] a = refl
filter-same p q (x ∷ xs) (e, a) = rw (e, filter-same p q xs a) refl

-- The keys of the rows of a table differ.
module _ {ℓ} {A : Type ℓ} (key : A → ℕ) where
  abbrev pub AreKeyed : List A → Type 0
  AreKeyed [] = Unit
  AreKeyed (x ∷ xs) = All (λ y. key y ≢ key x) xs × AreKeyed xs

  abbrev pub has_key_of : A → A → Bool
  has_key_of x y = nat_beq (key x) (key y)

  no_key :
      (p : A → Bool) (x : A) (xs : List A)
      → All (λ y. key y ≢ key x) xs
      → any (has_key_of x) (filter p xs) ≡ false
  no_key p x [] a = refl
  no_key p x (y ∷ ys) (other, a) = elim (Bool-cases (p y)) [
    | inl e ↦ rw e (elim (Bool-cases (has_key_of x y)) [
      | inl h ↦ absurd (other (sym ((nat_beq_iff (key x) (key y)).0 h)))
      | inr h ↦ rw h (no_key p x ys a)
    ])
    | inr e ↦ rw e (no_key p x ys a)
  ]

  -- A row bears the key of one that passes a test only where it passes itself.
  pub filter-AreKeyed :
      (p : A → Bool) (xs : List A)
      → AreKeyed xs
      → All (λ x. any (has_key_of x) (filter p xs) ≡ p x) xs
  filter-AreKeyed p [] a = tt
  filter-AreKeyed p (z ∷ zs) (apart, keys) = elim (Bool-cases (p z)) [
    | inl e ↦ (
      rw (e, (nat_beq_iff (key z) (key z)).1 refl) refl,
      All-both (λ y. key y ≢ key z) (λ x. any (has_key_of x) (filter p zs) ≡ p x) _
          (λ x other same. elim (Bool-cases (has_key_of x z)) [
            | inl h ↦ absurd (other ((nat_beq_iff (key x) (key z)).0 h))
            | inr h ↦ rw (e, h) same
          ])
          zs apart (filter-AreKeyed p zs keys),
    )
    | inr e ↦ (
      rw e (no_key p z zs apart),
      subst
          (λ b. All (λ x. any (has_key_of x) (if b then z ∷ filter p zs else filter p zs) ≡ p x) zs)
          (sym e) (filter-AreKeyed p zs keys),
    )
  ]

  -- A row that any query finds is the one found by its key.
  pub keyed-found :
      (p : A → Bool) (xs : List A) {v : A}
      → AreKeyed xs
      → find p xs ≡ some v
      → find (λ y. nat_beq (key y) (key v)) xs ≡ some v
  keyed-found p [] keys h = cc
  keyed-found p (x ∷ xs) {v} (apart, keys) h = elim (Bool-cases (p x)) [
    | inl e ↦
        let same : x ≡ v = cc (subst (λ b. (if b then some x else find p xs) ≡ some v) e h) in
        subst (λ w. find (λ y. nat_beq (key y) (key w)) (x ∷ xs) ≡ some w) same
          (rw ((nat_beq_iff (key x) (key x)).1 refl) refl)
    | inr e ↦
        let rest = subst (λ b. (if b then some x else find p xs) ≡ some v) e h in
        let other : nat_beq (key x) (key v) ≡ false = elim (Bool-cases (nat_beq (key x) (key v))) [
          | inl f ↦ absurd (
              find-All (λ y. key y ≢ key x) p xs rest apart
                (sym ((nat_beq_iff (key x) (key v)).0 f)))
          | inr f ↦ f
        ] in
        rw other (keyed-found p xs keys rest)
  ]
