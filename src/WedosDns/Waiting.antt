-- ===== src/WedosDns/Waiting.antt =====
-- The wait for the name servers ends (apps/server/src/tls/wedos-dns-operation.ts).
use kajovo_cml.Prelude.{
  ℕ, zero, suc, ◌+◌, ◌-◌, ◌*◌, ◌≤◌, ◌<◌, min, Bool, false, Option, none, some, ◌≡◌, refl, sym, ap,
  ◌∙◌, arith, ◌⊎◌, inl, inr, ltb, leb, ltb→lt, Bool-cases, Option-cases, Result, ok, err,
}
use kajovo_cml.Security.Text.{codes}
use kajovo_cml.WedosDns.Store.{Snapshot}
use kajovo_cml.WedosDns.Propagation.{
  Fault, other, Surroundings, failure_at, timed_out, wait_loop, wait_for_authoritative_txt,
}

round_enough :
    (timeout delay now took over fuel : ℕ)
    → timeout ≤ now + suc fuel * delay
    → timeout ≤ now + took + min delay (timeout - (now + took)) + over + fuel * delay
round_enough timeout delay now took over fuel h = grind arith

module _ (s : Surroundings) (expected_present : Bool) (baseline : Option Snapshot) where
  abbrev pub Passed : ℕ → Option (Result Fault (Unit {0})) → Type 0
  Passed timeout r =
      (t : ℕ) × (t < timeout)
      × (failure_at s expected_present baseline t ≡ none)
      × (r ≡ some (ok tt))

  abbrev pub Failed : ℕ → Fault → Option (Result Fault (Unit {0})) → Type 0
  Failed timeout last r =
      (fault : Fault) × (r ≡ some (err (timed_out s expected_present baseline fault)))
      × ((fault ≡ last)
          ⊎ ((t : ℕ) × (t < timeout) × (failure_at s expected_present baseline t ≡ some fault)))

  later_failure :
      (timeout now : ℕ) (fault last : Fault) (r : Option (Result Fault (Unit {0})))
      → now < timeout
      → failure_at s expected_present baseline now ≡ some fault
      → Passed timeout r ⊎ Failed timeout fault r
      → Passed timeout r ⊎ Failed timeout last r
  later_failure timeout now fault last r early failed (inl p) = inl p
  later_failure timeout now fault last r early failed (inr (f, e, inl same)) =
      inr (f, e, inr (now, early, failed ∙ ap some (sym same)))
  later_failure timeout now fault last r early failed (inr (f, e, inr seen)) = inr (f, e, inr seen)

  -- A round takes the delay, or reaches the timeout.
  wait_loop_ends :
      (fuel timeout delay now : ℕ) (last : Fault)
      → timeout ≤ now + fuel * delay
      → let r = wait_loop s expected_present baseline (suc fuel) timeout delay now last in
        Passed timeout r ⊎ Failed timeout last r
  unfolding wait_loop
  wait_loop_ends zero timeout delay now last enough =
      let late : ltb now timeout ≡ false = ground arith in rw late (inr (last, refl, inl refl))
  wait_loop_ends (suc fuel) timeout delay now last enough = elim (Bool-cases (ltb now timeout)) [
    | inr late ↦ rw late (inr (last, refl, inl refl))
    | inl early ↦ elim (Option-cases (failure_at s expected_present baseline now)) [
      | inl seen ↦ rw (early, seen) (inl (now, ltb→lt now timeout early, seen, refl))
      | inr (fault, seen) ↦ elim (Bool-cases (leb timeout (now + s.took now))) [
        | inl over ↦
            rw (early, seen, over) (inr (fault, refl, inr (now, ltb→lt now timeout early, seen)))
        | inr more ↦
            rw (early, seen, more)
              (let after = now + s.took now in
                later_failure timeout now fault last _ (ltb→lt now timeout early) seen (
                  wait_loop_ends fuel timeout delay
                    (after + min delay (timeout - after) + s.overslept after) fault
                    (round_enough timeout delay now (s.took now) (s.overslept after) fuel enough)))
      ]
    ]
  ]

  -- Whatever the name servers answer and however long answers and sleeps take, the wait ends, at a
  -- timeout of up to 900 seconds. It returns where an observation begun before the timeout has passed, and
  -- otherwise throws the fault of such an observation, or the one that it has started with.
  pub wait_for_authoritative_txt_ends :
      (timeout : ℕ)
      → timeout ≤ 900000
      → let r = wait_for_authoritative_txt s expected_present baseline timeout in
        Passed timeout r
        ⊎ Failed timeout (other (codes "wedos_dns_authoritative_propagation_unknown")) r
  unfolding wait_for_authoritative_txt
  wait_for_authoritative_txt_ends timeout h = wait_loop_ends 181 timeout 5000 0 _ (omega arith)
