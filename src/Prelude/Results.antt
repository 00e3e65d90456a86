-- ===== src/Prelude/Results.antt =====
-- Fallible code: a result carries the error that the source throws.
use mathlib.Core.Path.{◌≡◌, refl, ap}
use mathlib.Core.Logic.{◌↔◌, ◌⊎◌, inl, inr}
use mathlib.Core.Bool.{Bool, true, false}
use mathlib.Core.Option.{Option, none, some}

pub data Result {ℓ κ} (E : Type ℓ) (A : Type κ) : Type (ℓ ⊔ κ) where
  ok : A → Result E A
  err : E → Result E A

-- `if (!test) throw error`.
abbrev pub guard {ℓ} : {E : Type ℓ} → Bool → E → Result E (Unit {0})
guard true e = ok tt
guard false e = err e

infixl 5 ◌>>=◌ ◌>>◌
abbrev pub ◌>>=◌ {ℓ κ μ} :
    {E : Type ℓ} {A : Type κ} {B : Type μ} → Result E A → (A → Result E B) → Result E B
err e >>= f = err e
ok a >>= f = f a

abbrev pub ◌>>◌ {ℓ κ} : {E : Type ℓ} {B : Type κ} → Result E (Unit {0}) → Result E B → Result E B
err e >> k = err e
ok done >> k = k

-- `if (!row) throw error`.
abbrev pub or_fail {ℓ κ} : {E : Type ℓ} {A : Type κ} → Option A → E → Result E A
or_fail none e = err e
or_fail (some a) e = ok a

pub >>=-eq-ok {ℓ κ μ} :
    {E : Type ℓ} {A : Type κ} {B : Type μ} (m : Result E A) (f : A → Result E B) {b : B}
    → (m >>= f) ≡ ok b
    → (a : A) × (m ≡ ok a) × (f a ≡ ok b)
>>=-eq-ok (err e) f h = cc
>>=-eq-ok (ok a) f h = (a, refl, h)

-- A guard in front of a computation, and the last one.
pub guard-then_iff {ℓ κ} :
    {E : Type ℓ} {B : Type κ} (test : Bool) (e : E) (rest : Result E B) (b : B)
    → ((guard test e >> rest) ≡ ok b) ↔ ((test ≡ true) × (rest ≡ ok b))
guard-then_iff true e rest b = (λ h. (refl, h), λ p. p.1)
guard-then_iff false e rest b = (λ h. cc, λ p. cc (p.0))

pub guard_iff {ℓ} : {E : Type ℓ} (test : Bool) (e : E) → (guard test e ≡ ok tt) ↔ (test ≡ true)
guard_iff true e = (λ h. refl, λ h. refl)
guard_iff false e = (λ h. cc, λ h. cc)

pub >>_iff {ℓ κ} :
    {E : Type ℓ} {B : Type κ} (m : Result E (Unit {0})) (rest : Result E B) (b : B)
    → ((m >> rest) ≡ ok b) ↔ ((m ≡ ok tt) × (rest ≡ ok b))
>>_iff (ok tt) rest b = (λ h. (refl, h), λ p. p.1)
>>_iff (err e) rest b = (λ h. cc, λ p. cc (p.0))

-- The state after a transaction: one that throws is rolled back.
abbrev pub after {ℓ κ} : {E : Type ℓ} {S : Type κ} → S → Result E S → S
after s (ok t) = t
after s (err e) = s

pub Result-cases {ℓ κ} :
    {E : Type ℓ} {A : Type κ} (r : Result E A) → ((a : A) × (r ≡ ok a)) ⊎ ((e : E) × (r ≡ err e))
Result-cases (ok a) = inl (a, refl)
Result-cases (err e) = inr (e, refl)

pub ok_inj {ℓ κ} : {E : Type ℓ} {A : Type κ} {a b : A} → ◌≡◌ {A = Result E A} (ok a) (ok b) → a ≡ b
ok_inj h = cc

pub or_fail-ok {ℓ κ} :
    {E : Type ℓ} {A : Type κ} (o : Option A) (e : E) {a : A} → or_fail o e ≡ ok a → o ≡ some a
or_fail-ok none e h = cc
or_fail-ok (some b) e h = ap some (ok_inj h)

pub some_inj {ℓ} : {A : Type ℓ} {a b : A} → some a ≡ some b → a ≡ b
some_inj h = cc
