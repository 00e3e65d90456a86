-- ===== src/Credentials/Holding.antt =====
-- Which scopes a credential holds (`currentManagedServiceScopes` of
-- apps/server/src/domain/managed-service.ts), said of the rows.
use kajovo_cml.Prelude.{
  ℕ, ◌≤◌, ◌<◌, Bool, true, false, not, ◌&&◌, ◌||◌, ◌==◌, nat_eq, nat_beq_iff, text_eq, text_beq_iff,
  Option, none, some, is_some, List, [], ◌∷◌, filter, any, All, ◌≡◌, refl, sym, ◌∙◌, ◌↔◌, inl, inr,
  Bool-cases, ap, some_inj, subst, leb→le, le→leb, ltb→lt, lt→ltb, leb,
}
use mathlib.Core.List.{Mem, Memᴰ, mem-cons_self, mem-cons_of_mem}
use mathlib.Core.Bool.{Bool-set}
use mathlib.Core.Logic.{∥∥₁_elim}
use kajovo_cml.Credentials.Store.{ScopeRow, PermissionRow, Store, is_before, is_current}
use kajovo_cml.Credentials.Access.{scope_names_of, is_granted, current_managed_service_scopes}
use kajovo_cml.Credentials.Decision.{has_all}

-- A moment lies before another one, where there is another one.
abbrev pub Until : ℕ → Option ℕ → Type 0
Until now none = Unit
Until now (some t) = now < t

-- A permission that counts now.
pub record Counts (now : ℕ) (p : PermissionRow) : Type 0 where
  pub granted : p.granted ≡ true
  pub kept : p.revoked_at ≡ none
  pub begun : p.valid_from ≤ now
  pub not_over : Until now p.valid_to

-- The credential holds the scope of a name in the service: a row of the service's scopes with a
-- permission.
abbrev pub Holds : ℕ → Store → ℕ → ℕ → List ℕ → Type 0
Holds now s credential_id service_id name =
    (scope : ScopeRow) × (p : PermissionRow) × Mem scope s.scopes
    × (scope.scope_name ≡ name)
    × (scope.managed_service_id ≡ service_id)
    × (scope.revoked_at ≡ none)
    × (s.permissions credential_id service_id scope.id ≡ some p)
    × Counts now p

pub Until-iff : (now : ℕ) (o : Option ℕ) → (is_before now o ≡ true) ↔ Until now o
Until-iff now none = (λ h. tt, λ h. refl)
Until-iff now (some t) = (ltb→lt now t, lt→ltb now t)

pub none_iff {ℓ} : {A : Type ℓ} (o : Option A) → (not (is_some o) ≡ true) ↔ (o ≡ none)
none_iff none = (λ h. refl, λ h. refl)
none_iff (some a) = (λ h. cc, λ h. cc)

pub and_iff : (a b : Bool) → ((a && b) ≡ true) ↔ ((a ≡ true) × (b ≡ true))
and_iff true b = (λ h. (refl, h), λ p. p.1)
and_iff false b = (λ h. cc, λ p. cc (p.0))

any-Mem {ℓ} :
    {A : Type ℓ} (p : A → Bool) (xs : List A) → any p xs ≡ true → (a : A) × Mem a xs × (p a ≡ true)
any-Mem p [] h = cc
any-Mem p (x ∷ xs) h = elim (Bool-cases (p x)) [
  | inl e ↦ (x, mem-cons_self, e)
  | inr e ↦ let (a, m, q) = any-Mem p xs (rw e at h) in (a, mem-cons_of_mem x m, q)
]

Memᴰ-any {ℓ} :
    {A : Type ℓ} (p : A → Bool) (a : A) (xs : List A) → p a ≡ true → Memᴰ a xs → any p xs ≡ true
Memᴰ-any p a [] h m = elim m [ ]
Memᴰ-any p a (x ∷ xs) h (Memᴰ.head e) = rw (sym (ap p e) ∙ h) refl
Memᴰ-any p a (x ∷ xs) h (Memᴰ.tail m) = rw (Memᴰ-any p a xs h m) (either (p x))
  where
    either : (b : Bool) → (b || true) ≡ true
    either true = refl
    either false = refl

any_iff {ℓ} :
    {A : Type ℓ} (p : A → Bool) (xs : List A)
    → (any p xs ≡ true) ↔ ((a : A) × Mem a xs × (p a ≡ true))
any_iff p xs =
    (any-Mem p xs, λ (a, m, h). ∥∥₁_elim m (Bool-set (any p xs) true) (λ d. Memᴰ-any p a xs h d))

any-scope_names_of :
    (q : List ℕ → Bool) (g : ScopeRow → Bool) (xs : List ScopeRow)
    → any q (scope_names_of (filter g xs)) ≡ any (λ (x : ScopeRow). g x && q x.scope_name) xs
any-scope_names_of q g [] = refl
any-scope_names_of q g (x ∷ xs) = elim (Bool-cases (g x)) [
  | inl e ↦ rw (e, any-scope_names_of q g xs) refl
  | inr e ↦ rw (e, any-scope_names_of q g xs) refl
]

Counts-iff :
    (now : ℕ) (p : PermissionRow)
    → ((not (is_some p.revoked_at) && p.granted && leb p.valid_from now && is_before now p.valid_to)
        ≡ true)
      ↔ Counts now p
Counts-iff now p = (
  λ h.
      let (h3, over) = (and_iff _ _).0 h in
      let (h2, begun) = (and_iff _ _).0 h3 in
      let (kept, granted) = (and_iff _ _).0 h2 in
      record {
        granted = granted;
        kept = (none_iff _).0 kept;
        begun = leb→le p.valid_from now begun;
        not_over = (Until-iff now p.valid_to).0 over;
      },
  λ c. (and_iff _ _).1 (
    (and_iff _ _).1
        ((and_iff _ _).1 ((none_iff _).1 c.kept, c.granted), le→leb p.valid_from now c.begun),
    (Until-iff now p.valid_to).1 c.not_over,
  ),
)

is_current_iff :
    (now : ℕ) (o : Option PermissionRow)
    → (is_current now o ≡ true) ↔ ((p : PermissionRow) × (o ≡ some p) × Counts now p)
is_current_iff now none = (λ h. cc, λ (p, e, c). cc)
is_current_iff now (some p) = (
  λ h. (p, refl, (Counts-iff now p).0 h),
  λ (q, e, c). (Counts-iff now p).1 (subst (Counts now) (sym (some_inj e)) c),
)

module _ (now : ℕ) (s : Store) (credential_id service_id : ℕ) where
  Holds-iff :
      (name : List ℕ)
      → (any
            (λ (y : List ℕ). name == y)
            (current_managed_service_scopes now s credential_id service_id)
          ≡ true)
        ↔ Holds now s credential_id service_id name
  unfolding current_managed_service_scopes
  Holds-iff name =
      let test = λ (y : List ℕ). name == y in
      let g = is_granted now s credential_id service_id in
      let both = any_iff (λ (x : ScopeRow). g x && test x.scope_name) s.scopes in
      let same = any-scope_names_of test g s.scopes in
      (
        λ h.
            let (x, m, k) = both.0 (sym same ∙ h) in
            let (granted, named) = (and_iff (g x) _).0 k in
            let (h2, current) = (and_iff _ _).0 granted in
            let (place, kept) = (and_iff _ _).0 h2 in
            let (p, row, c) = (is_current_iff now _).0 current in
            (
              x,
              p,
              m,
              sym ((text_beq_iff name x.scope_name).0 named),
              (nat_beq_iff _ _).0 place,
              (none_iff _).0 kept,
              row,
              c,
            ),
        λ (x, p, m, named, place, kept, row, c).
            same
            ∙ both.1 (
              x,
              m,
              (and_iff (g x) _).1 (
                (and_iff _ _).1 (
                  (and_iff _ _).1 ((nat_beq_iff _ _).1 place, (none_iff _).1 kept),
                  (is_current_iff now _).1 (p, row, c),
                ),
                (text_beq_iff name x.scope_name).1 (sym named),
              ),
            ),
      )

  pub all_held :
      (names : List (List ℕ))
      → (has_all (current_managed_service_scopes now s credential_id service_id) names ≡ true)
        ↔ All (Holds now s credential_id service_id) names
  all_held [] = (λ h. tt, λ h. refl)
  all_held (name ∷ names) =
      let here = Holds-iff name in
      let rest = all_held names in
      (
        λ h. let (a, b) = (and_iff _ _).0 h in (here.0 a, rest.0 b),
        λ (a, b). (and_iff _ _).1 (here.1 a, rest.1 b),
      )
