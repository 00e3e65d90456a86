-- ===== src/Alerts/Choice.antt =====
-- What the query of a lease chooses among its rows (apps/server/src/domain/alerts.ts).
use kajovo_cml.Prelude.{
  ℕ, ◌≤◌, Bool, true, false, not, ◌&&◌, ◌||◌, ◌==◌, nat_eq, Option, none, some, List, [], ◌∷◌, find,
  All, All-map, ltb, leb, ◌≡◌, refl, subst, inl, inr, arith, Bool-cases, Option-cases, leb→le,
}
use kajovo_cml.Alerts.Store.{AlertRow, DeliveryRow, AlertStore}
use kajovo_cml.Alerts.Deliver.{
  Candidate, candidates, comes_before, better, first_candidate, is_open, Worker, DeliveryLease,
  lease_of, lease_delivery, severity_rank,
}

-- A delivery that is waiting for its turn at a moment, free of locks.
pub record IsDue (locked : ℕ → Bool) (now : ℕ) (d : DeliveryRow) : Type 0 where
  pub waiting : is_open d.state ≡ true
  pub reached : d.next_attempt_at ≤ now
  pub free : locked d.id ≡ false

pub candidates-IsDue {ℓ} :
    (P : DeliveryRow → Type ℓ) (alerts : List AlertRow) (locked : ℕ → Bool) (now : ℕ)
    (ds : List DeliveryRow)
    → All P ds
    → All
        (λ (c : Candidate). IsDue locked now c.delivery × P c.delivery)
        (candidates alerts locked now ds)
unfolding candidates
candidates-IsDue P alerts locked now [] h = tt
candidates-IsDue P alerts locked now (d ∷ ds) h =
    let rest = candidates-IsDue P alerts locked now ds (h.1) in
    elim (Bool-cases (is_open d.state && leb d.next_attempt_at now && not (locked d.id))) [
      | inr e ↦ rw e rest
      | inl e ↦
          let due : IsDue locked now d = record {
            waiting = ground arith;
            reached = leb→le d.next_attempt_at now (ground arith);
            free = ground arith;
          } in
          elim (Option-cases (find (λ (a : AlertRow). a.id == d.alert_id) alerts)) [
            | inl missing ↦ rw (e, missing) rest
            | inr (a, found) ↦ rw (e, found) ((due, h.0), rest)
          ]
    ]

better-passes {ℓ} :
    (P : Candidate → Type ℓ) (o : Option Candidate) (d : Candidate)
    → ((best : Candidate) → o ≡ some best → P best)
    → P d
    → P (better o d)
better-passes P none d h p = p
better-passes P (some best) d h p = elim (Bool-cases (comes_before best d)) [
  | inl e ↦ rw e (h best refl)
  | inr e ↦ rw e p
]

all_unit : (ds : List DeliveryRow) → All (λ (d : DeliveryRow). Unit {0}) ds
all_unit [] = tt
all_unit (d ∷ ds) = (tt, all_unit ds)

pub All-first_candidate {ℓ} :
    (P : Candidate → Type ℓ) (cs : List Candidate) (c : Candidate)
    → All P cs
    → first_candidate cs ≡ some c
    → P c
unfolding first_candidate
All-first_candidate P [] c h e = cc
All-first_candidate P (d ∷ cs) c h e =
    let same : better (first_candidate cs) d ≡ c = cc e in
    subst P same (
      better-passes P (first_candidate cs) d
        (λ best found. All-first_candidate P cs best (h.1) found) (h.0))

lexicographic :
    (r s t i j k : ℕ)
    → (ltb r s || (r == s && ltb i j)) ≡ false
    → (ltb s t || (s == t && ltb j k)) ≡ false
    → (ltb r t || (r == t && ltb i k)) ≡ false
lexicographic r s t i j k h h₁ = ground arith

incomparable :
    (a b c : Candidate)
    → comes_before a b ≡ false
    → comes_before b c ≡ false
    → comes_before a c ≡ false
incomparable a b c h k =
    let ranks = λ (x : Candidate). severity_rank x.alert.severity in
    lexicographic (ranks a) (ranks b) (ranks c) a.delivery.next_attempt_at
      b.delivery.next_attempt_at c.delivery.next_attempt_at h k

lexicographic_irrefl : (r i : ℕ) → (ltb r r || (r == r && ltb i i)) ≡ false
lexicographic_irrefl r i = ground arith

lexicographic_asym :
    (r s i j : ℕ)
    → (ltb r s || (r == s && ltb i j)) ≡ true
    → (ltb s r || (s == r && ltb j i)) ≡ false
lexicographic_asym r s i j h = ground arith

unfoldable pub Unpreceded : List Candidate → Candidate → Type 0
Unpreceded cs c = All (λ (d : Candidate). comes_before d c ≡ false) cs

better-Unpreceded :
    (o : Option Candidate) (d : Candidate) (cs : List Candidate)
    → ((best : Candidate) → o ≡ some best → Unpreceded cs best)
    → (o ≡ none → cs ≡ [])
    → Unpreceded (d ∷ cs) (better o d)
unfolding Unpreceded
better-Unpreceded none d cs h empty =
    rw (empty refl)
      (lexicographic_irrefl (severity_rank d.alert.severity) d.delivery.next_attempt_at, tt)
better-Unpreceded (some best) d cs h empty = elim (Bool-cases (comes_before best d)) [
  | inl e ↦
      let same : best ≡ better (some best) d = rw e refl in
      subst (λ (x : Candidate). Unpreceded (d ∷ cs) x) same
        (
          lexicographic_asym (severity_rank best.alert.severity) (severity_rank d.alert.severity)
              best.delivery.next_attempt_at d.delivery.next_attempt_at e,
          h best refl,
        )
  | inr e ↦
      let same : d ≡ better (some best) d = rw e refl in
      subst (λ (x : Candidate). Unpreceded (d ∷ cs) x) same
        (
          lexicographic_irrefl (severity_rank d.alert.severity) d.delivery.next_attempt_at,
          All-map (λ (x : Candidate). comes_before x best ≡ false)
              (λ (x : Candidate). comes_before x d ≡ false)
              (λ (x : Candidate) k. incomparable x best d k e) cs (h best refl),
        )
]

first_candidate-none : (cs : List Candidate) → first_candidate cs ≡ none → cs ≡ []
unfolding first_candidate
first_candidate-none [] h = refl
first_candidate-none (d ∷ cs) h = cc

pub first_candidate-Unpreceded :
    (cs : List Candidate) (c : Candidate) → first_candidate cs ≡ some c → Unpreceded cs c
unfolding first_candidate Unpreceded
first_candidate-Unpreceded [] c e = tt
first_candidate-Unpreceded (d ∷ cs) c e =
    let same : better (first_candidate cs) d ≡ c = cc e in
    subst (λ (x : Candidate). Unpreceded (d ∷ cs) x) same
      (better-Unpreceded (first_candidate cs) d cs
        (λ best found. first_candidate-Unpreceded cs best found) (first_candidate-none cs))

pub lease-first_candidate :
    (w : Worker) (db : AlertStore) (now : ℕ) (l : DeliveryLease)
    → (lease_delivery w db now).1 ≡ some l
    → (c : Candidate) × (first_candidate (candidates db.alerts w.locked now db.deliveries) ≡ some c)
      × (l ≡ lease_of w c)
unfolding lease_delivery
lease-first_candidate w db now l h =
    elim (Option-cases (first_candidate (candidates db.alerts w.locked now db.deliveries))) [
      | inl missing ↦
          let none_leased : (lease_delivery w db now).1 ≡ none =
            rw (missing, lease_delivery) refl in
          cc
      | inr (c, found) ↦
          let leased : (lease_delivery w db now).1 ≡ some (lease_of w c) =
            rw (found, lease_delivery) refl in
          (c, found, cc)
    ]
