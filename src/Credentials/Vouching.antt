-- ===== src/Credentials/Vouching.antt =====
-- What an external API asks beyond its availability (`authorizeManagedServiceToken` of
-- apps/server/src/domain/managed-service.ts).
use kajovo_cml.Prelude.{
  ℕ, ◌+◌, ◌-◌, ◌*◌, ◌≤◌, ◌<◌, Bool, true, not, nat_eq, string_eq, Option, none, some, List, ◌≡◌,
  refl, sym, subst, ◌↔◌, ◌⊎◌, inl, inr, ok, err, Result, guard, guard_iff, >>_iff, le→leb, leb,
  some_inj, arith,
}
use kajovo_cml.Credentials.External.{
  ProbeType, health, readiness, tls, acceptance, internal_error, passed, stale, failed, ProbeStatus,
  Probe, latest_probe,
}
use kajovo_cml.Credentials.Store.{
  ServiceKind, mcp, external_api, ServiceRow, RevisionRow, Refusal, monitoring_evidence_stale,
  monitoring_probe_failed,
}
use kajovo_cml.Credentials.Authorize.{
  TokenRequest, checked, has_recent_error, kind_checks, external_checks,
}
use kajovo_cml.Credentials.Naming.{Names, Names-iff}

-- The latest probe of a kind has passed, and lately enough.
abbrev pub HasPassed : ℕ → ℕ → ℕ → List Probe → ProbeType → Type 0
HasPassed now stale_after_ms service_id probes kind =
    (p : Probe) × (latest_probe service_id kind probes ≡ some p)
    × (p.status ≡ passed)
    × (now ≤ p.checked_at + stale_after_ms)

-- No latest probe, or one that is not recent.
abbrev pub IsQuiet : ℕ → ℕ → Option Probe → Type 0
IsQuiet now stale_after_ms none = Unit
IsQuiet now stale_after_ms (some p) = p.checked_at + stale_after_ms < now

judged :
    (status : ProbeStatus) (recent : Bool)
    → (◌≡◌ {A = Result Refusal (Unit {0})}
        (elim status [
          | stale ↦ err monitoring_evidence_stale
          | failed ↦ err monitoring_probe_failed
          | passed ↦ guard recent monitoring_evidence_stale
        ])
        (ok tt))
      ↔ ((status ≡ passed) × (recent ≡ true))
judged stale recent = (λ h. cc, λ w. cc (w.0))
judged failed recent = (λ h. cc, λ w. cc (w.0))
judged passed recent = (λ h. (refl, (guard_iff _ _).0 h), λ w. (guard_iff _ _).1 (w.1))

passed_iff :
    (now stale_after_ms : ℕ) (o : Option Probe)
    → (checked now stale_after_ms o ≡ ok tt)
      ↔ ((p : Probe) × (o ≡ some p) × (p.status ≡ passed) × (now ≤ p.checked_at + stale_after_ms))
passed_iff now stale_after_ms none = (λ h. cc, λ w. cc (w.1))
passed_iff now stale_after_ms (some p) =
    let test = judged p.status (leb (now - p.checked_at) stale_after_ms) in
    (
      λ h. let (status, recent) = test.0 h in (p, refl, status, ground arith),
      λ (q, e, status, recent).
          let same : q ≡ p = some_inj (sym e) in
          let recent' : now ≤ p.checked_at + stale_after_ms =
            subst (λ (x : Probe). now ≤ x.checked_at + stale_after_ms) same recent in
          test.1 (
            subst (λ (x : Probe). x.status ≡ passed) same status,
            le→leb _ stale_after_ms (omega arith),
          ),
    )

IsQuiet-iff :
    (now stale_after_ms : ℕ) (o : Option Probe)
    → (not (has_recent_error now stale_after_ms o) ≡ true) ↔ IsQuiet now stale_after_ms o
IsQuiet-iff now stale_after_ms none = (λ h. tt, λ h. refl)
IsQuiet-iff now stale_after_ms (some p) = ground arith

-- What an external API asks for beyond its availability, in the manifest of its active revision.
pub record IsVouched (now : ℕ) (r : TokenRequest) (service_id : ℕ) (revision : RevisionRow)
    (probes : List Probe) : Type 0 where
  pub healthy :
      HasPassed now (revision.manifest.stale_after_seconds * 1000) service_id probes health
  pub ready :
      HasPassed now (revision.manifest.stale_after_seconds * 1000) service_id probes readiness
  pub encrypted : HasPassed now (revision.manifest.stale_after_seconds * 1000) service_id probes tls
  pub accepted :
      HasPassed now (revision.manifest.stale_after_seconds * 1000) service_id probes acceptance
  pub quiet :
      IsQuiet now
        (revision.manifest.stale_after_seconds * 1000)
        (latest_probe service_id internal_error probes)
  pub named : Names revision.manifest.operations r

IsVouched-iff :
    (now : ℕ) (r : TokenRequest) (service_id : ℕ) (revision : RevisionRow) (probes : List Probe)
    → (external_checks now r service_id revision.manifest probes ≡ ok tt)
      ↔ IsVouched now r service_id revision probes
unfolding external_checks
IsVouched-iff now r service_id revision probes = (
  λ h.
      let (h5, matched) = (>>_iff _ _ tt).0 h in
      let (h4, context) = (>>_iff _ _ tt).0 h5 in
      let (h3, quiet) = (>>_iff _ _ tt).0 h4 in
      let (h2, accepted) = (>>_iff _ _ tt).0 h3 in
      let (h1, encrypted) = (>>_iff _ _ tt).0 h2 in
      let (healthy, ready) = (>>_iff _ _ tt).0 h1 in
      record {
        healthy = (passed_iff now _ _).0 healthy;
        ready = (passed_iff now _ _).0 ready;
        encrypted = (passed_iff now _ _).0 encrypted;
        accepted = (passed_iff now _ _).0 accepted;
        quiet = (IsQuiet-iff now _ _).0 ((guard_iff _ _).0 quiet);
        named =
            (Names-iff revision.manifest.operations r).0
              ((guard_iff _ _).0 context, (guard_iff _ _).0 matched);
      },
  λ v.
      let (context, matched) = (Names-iff revision.manifest.operations r).1 v.named in
      (>>_iff _ _ tt).1 (
        (>>_iff _ _ tt).1 (
          (>>_iff _ _ tt).1 (
            (>>_iff _ _ tt).1 (
              (>>_iff _ _ tt).1 (
                (>>_iff _ _ tt).1
                    ((passed_iff now _ _).1 v.healthy, (passed_iff now _ _).1 v.ready),
                (passed_iff now _ _).1 v.encrypted,
              ),
              (passed_iff now _ _).1 v.accepted,
            ),
            (guard_iff _ _).1 ((IsQuiet-iff now _ _).1 v.quiet),
          ),
          (guard_iff _ _).1 context,
        ),
        (guard_iff _ _).1 matched,
      ),
)

-- An MCP service asks for nothing more.
abbrev pub KindAllows : ℕ → TokenRequest → ServiceRow → Option RevisionRow → List Probe → Type 0
KindAllows now r service revision probes =
    (service.service_kind ≡ mcp)
    ⊎ ((service.service_kind ≡ external_api)
        × ((v : RevisionRow) × (revision ≡ some v) × IsVouched now r service.id v probes))

pub KindAllows-iff :
    (now : ℕ) (r : TokenRequest) (service : ServiceRow) (revision : Option RevisionRow)
    (probes : List Probe) (kind : ServiceKind)
    → (kind_checks now r service revision probes kind ≡ ok tt) ↔ (
        (kind ≡ mcp)
        ⊎ ((kind ≡ external_api)
            × ((v : RevisionRow) × (revision ≡ some v) × IsVouched now r service.id v probes)))
KindAllows-iff now r service revision probes mcp = (λ h. inl refl, λ w. refl)
KindAllows-iff now r service none probes external_api =
    (λ h. cc, λ w. elim w [ inl e ↦ cc | inr k ↦ cc (k.1.1) ])
KindAllows-iff now r service (some v) probes external_api =
    let test = IsVouched-iff now r service.id v probes in
    (
      λ h. inr (refl, (v, refl, test.0 h)),
      λ w. elim w [
        | inl e ↦ cc
        | inr (k, (u, e, vouched)) ↦ test.1 (
            subst (λ (x : RevisionRow). IsVouched now r service.id x probes) (sym (some_inj e))
              vouched)
      ],
    )
