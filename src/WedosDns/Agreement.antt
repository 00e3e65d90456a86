-- ===== src/WedosDns/Agreement.antt =====
-- When an observation of the name servers passes (apps/server/src/tls/wedos-dns-operation.ts).
use kajovo_cml.Prelude.{
  ◌<◌, Bool, true, false, not, ◌&&◌, ◌||◌, ◌==◌, nat_eq, text_eq, text_beq, text_beq_iff, Option,
  none, some, List, [], ◌∷◌, map, any, all, filter, length, ◌≡◌, refl, sym, ap, ◌∙◌, arith, ◌↔◌,
  inl, inr, Bool-cases, Option-cases,
}
use kajovo_cml.WedosDns.Names.{Text}
use kajovo_cml.WedosDns.Store.{
  SoaStatus, available, soa_network_failure, soa_protocol_failure, Observation, Snapshot,
}
use kajovo_cml.WedosDns.Propagation.{
  pass, is_answered, is_protocol_failure, has_soa, is_expected, distinct, group, group_failure,
  first_failure, divergence, soa_fails_protocol, soa_fails_network, evaluate_successful,
  evaluate_authoritative_txt_snapshot,
}

-- The addresses of an authority agree that they can be asked.
abbrev pub is_reached : List Observation → Text → Bool
is_reached observations authority =
    let addresses = group observations authority in
    not (any is_protocol_failure addresses) && any is_answered addresses

-- An answer of an address is complete and shows what is expected.
abbrev pub agrees : Bool → Observation → Bool
agrees expected_present o =
    not (is_answered o) || (has_soa o.soa_status && is_expected expected_present o)

all-without :
    (p : Text → Bool) (t : Text)
    → p t ≡ true
    → (texts : List Text) → all p (filter (λ u. not (u == t)) texts) ≡ all p texts
all-without p t holds [] = refl
all-without p t holds (u ∷ texts) = elim (Bool-cases (text_beq u t)) [
  | inl e ↦
      let same = (text_beq_iff u t).0 e in
      rw e (rw (all-without p t holds texts, ap p same ∙ holds))
  | inr e ↦ rw e (rw (all-without p t holds texts))
]

all-distinct : (p : Text → Bool) (texts : List Text) → all p (distinct texts) ≡ all p texts
unfolding distinct
all-distinct p [] = refl
all-distinct p (t ∷ texts) = elim (Bool-cases (p t)) [
  | inl e ↦ rw e (all-without p t e (distinct texts) ∙ all-distinct p texts)
  | inr e ↦ rw e
]

all-map :
    {A : Type 0} (p : Text → Bool) (f : A → Text) (xs : List A)
    → all p (map f xs) ≡ all (λ x. p (f x)) xs
all-map p f [] = refl
all-map p f (x ∷ xs) = rw (all-map p f xs)

group_failure-none_iff :
    (observations : List Observation) (authority : Text)
    → (group_failure (group observations authority) ≡ none)
      ↔ (is_reached observations authority ≡ true)
unfolding group_failure
group_failure-none_iff observations authority = ground arith

first_failure-none_iff :
    (observations : List Observation) (authorities : List Text)
    → (first_failure observations authorities ≡ none)
      ↔ (all (is_reached observations) authorities ≡ true)
unfolding first_failure
first_failure-none_iff observations [] = (λ h. refl, λ h. refl)
first_failure-none_iff observations (a ∷ authorities) =
    let rest = first_failure-none_iff observations authorities in
    let here = group_failure-none_iff observations a in
    elim (Option-cases (group_failure (group observations a))) [
      | inl e ↦ rw e (rw (here.0 e) rest)
      | inr (f, e) ↦ elim (Bool-cases (is_reached observations a)) [
        | inl r ↦ let none_there = here.1 r in cc (sym none_there ∙ e)
        | inr r ↦ rw e (rw r ((λ h. cc h), (λ h. cc h)))
      ]
    ]

group_failure-ne-pass :
    (observations : List Observation) → group_failure observations ≡ some pass → ⊥
unfolding group_failure
group_failure-ne-pass observations h = ground arith

first_failure-ne-pass :
    (observations : List Observation) (authorities : List Text)
    → first_failure observations authorities ≡ some pass
    → ⊥
unfolding first_failure
first_failure-ne-pass observations [] h = cc
first_failure-ne-pass observations (a ∷ authorities) h =
    elim (Option-cases (group_failure (group observations a))) [
      | inl e ↦ first_failure-ne-pass observations authorities (rw e at h)
      | inr (f, e) ↦ group_failure-ne-pass (group observations a) (e ∙ (rw e at h))
    ]

all-agrees :
    (expected_present : Bool) (observations : List Observation)
    → let successful = filter is_answered observations in
      all (agrees expected_present) observations ≡ (
        not (any soa_fails_protocol successful)
        && not (any soa_fails_network successful)
        && all (is_expected expected_present) successful)
all-agrees expected_present [] = refl
all-agrees expected_present (o ∷ observations) =
    let rest = all-agrees expected_present observations in
    elim (Bool-cases (is_answered o)) [
      | inl e ↦ rw e (rw rest (regroup (o.soa_status) (is_expected expected_present o) _ _ _))
      | inr e ↦ rw e rest
    ]
  where
    regroup :
        (s : SoaStatus) (x p n a : Bool)
        → (has_soa s && x) && (not p && not n && a)
          ≡ not (elim s [ soa_protocol_failure ↦ true | _ ↦ false ] || p)
            && not (elim s [ soa_network_failure ↦ true | _ ↦ false ] || n)
            && (x && a)
    regroup available true p n a = refl
    regroup available false true true a = refl
    regroup available false true false a = refl
    regroup available false false true a = refl
    regroup available false false false a = refl
    regroup soa_network_failure x true n a = refl
    regroup soa_network_failure x false n a = refl
    regroup soa_protocol_failure x p n a = refl

divergence-ne-pass :
    (expected_present : Bool) (baseline : Option Snapshot) (successful : List Observation)
    → divergence expected_present baseline successful ≡ pass
    → ⊥
unfolding divergence
divergence-ne-pass expected_present baseline successful h = ground arith

evaluate_successful-pass_iff :
    (expected_present : Bool) (baseline : Option Snapshot) (observations : List Observation)
    → (evaluate_successful expected_present baseline (filter is_answered observations) ≡ pass)
      ↔ (all (agrees expected_present) observations ≡ true)
unfolding evaluate_successful
evaluate_successful-pass_iff expected_present baseline observations =
    let successful = filter is_answered observations in
    rw (all-agrees expected_present observations)
      (elim (Bool-cases (any soa_fails_protocol successful)) [
        | inl p ↦ rw p (λ h. cc h, λ h. cc h)
        | inr p ↦ elim (Bool-cases (any soa_fails_network successful)) [
          | inl n ↦ rw (p, n) (λ h. cc h, λ h. cc h)
          | inr n ↦ elim (Bool-cases (all (is_expected expected_present) successful)) [
            | inl a ↦ rw (p, n, a) (λ h. refl, λ h. refl)
            | inr a ↦
                rw (p, n, a)
                  (
                    λ h. absurd (divergence-ne-pass expected_present baseline successful h),
                    λ h. cc h,
                  )
          ]
        ]
      ])

-- A snapshot passes exactly if it has observations, if no authority fails the protocol at an address or
-- leaves all of its addresses without an answer, and if every address that answers has a SOA record and
-- shows the record present or absent as expected; the baseline plays no part in this.
pub evaluate_authoritative_txt_snapshot-pass_iff :
    (snapshot : Snapshot) (expected_present : Bool) (baseline : Option Snapshot)
    → (evaluate_authoritative_txt_snapshot snapshot expected_present baseline ≡ pass) ↔ (
        (0 < length snapshot.observations)
        × (all (λ o. is_reached snapshot.observations o.authority) snapshot.observations ≡ true)
        × (all (agrees expected_present) snapshot.observations ≡ true))
unfolding evaluate_authoritative_txt_snapshot
evaluate_authoritative_txt_snapshot-pass_iff snapshot expected_present baseline =
    let observations = snapshot.observations in
    let authorities = distinct (map (λ (o : Observation). o.authority) observations) in
    let reached = first_failure-none_iff observations authorities in
    let successful = evaluate_successful-pass_iff expected_present baseline observations in
    let everywhere : all (is_reached observations) authorities
        ≡ all (λ o. is_reached observations o.authority) observations =
      all-distinct (is_reached observations) _
      ∙ all-map (is_reached observations) (λ o. o.authority) observations in
    elim (Bool-cases (length observations == 0)) [
      | inl e ↦ rw e (λ h. cc h, λ h. absurd (ground arith))
      | inr e ↦ elim (Option-cases (first_failure observations authorities)) [
        | inl f ↦
            rw (e, f)
              (
                λ h. (ground arith, sym everywhere ∙ reached.0 f, successful.0 h),
                λ h. successful.1 (h.2),
              )
        | inr (g, f) ↦
            rw (e, f)
              (
                λ h. absurd (first_failure-ne-pass observations authorities (f ∙ ap some h)),
                λ h. cc (sym f ∙ reached.1 (everywhere ∙ h.1)),
              )
      ]
    ]
