-- ===== src/ComponentAuth/Authorize/Grants.antt =====
-- When a call of a component is allowed, and what the decision leaves behind (component-auth.ts).
use kajovo_cml.Prelude.{
  subst, ℕ, ◌<◌, List, ◌∷◌, some, nat_eq, find, find-update_where, option_map, if◌then◌else◌, Bool,
  true, false, not, ◌||◌, ◌==◌, string_eq, ◌≡◌, refl, ◌↔◌, ◌⊎◌, inl, inr, Result, ok, err,
  guard-then_iff, guard_iff, arith, Bool-cases, leb,
}
use kajovo_cml.Audit.{AuditInput, redacted_event, append_audit}
use kajovo_cml.ComponentAuth.Store.{TokenRow, AuthStore}
use kajovo_cml.ComponentAuth.Decide.{
  AuthorizationReason, invalid_token, CallParams, CallRow, call_row, decide, preactivation_probe,
  is_revoked, is_suspended, fits_audience, is_quarantined, is_open, control_callback, has_scope,
  scoped_permission, route_permission,
}
use kajovo_cml.ComponentAuth.Authorize.{
  denied, with_base, principal_decision, mark_used, decision_event, missing_event,
  authorize_component_call,
}

-- The conditions of an allowed call.
pub record Granted (db : AuthStore) (now : ℕ) (params : CallParams) (row : CallRow) : Type 0 where
  pub live : is_revoked row ≡ false
  pub fresh : now < row.token.expires_at
  pub unsuspended : is_suspended db row ≡ false
  pub active : (row.principal.status == "ACTIVE" || preactivation_probe db params row) ≡ true
  pub addressed : fits_audience params row ≡ true
  pub trusted : is_quarantined row ≡ false
  pub open_ :
      (is_open row || control_callback params row || preactivation_probe db params row) ≡ true
  pub scoped : has_scope params row ≡ true
  pub permitted : scoped_permission db params row ≡ true
  pub routed : route_permission db params row ≡ true

not_iff : (b : Bool) → (not b ≡ true) ↔ (b ≡ false)
not_iff b = ground arith

fresh_iff : (a b : ℕ) → (not (leb a b) ≡ true) ↔ (b < a)
fresh_iff a b = ground arith

decide_iff :
    (db : AuthStore) (now : ℕ) (params : CallParams) (row : CallRow)
    → (decide db now params row ≡ ok tt) ↔ Granted db now params row
unfolding decide
decide_iff db now params row = (
  λ h.
      let (live, h₁) = (guard-then_iff _ _ _ _).0 h in
      let (fresh, h₂) = (guard-then_iff _ _ _ _).0 h₁ in
      let (unsuspended, h₃) = (guard-then_iff _ _ _ _).0 h₂ in
      let (active, h₄) = (guard-then_iff _ _ _ _).0 h₃ in
      let (addressed, h₅) = (guard-then_iff _ _ _ _).0 h₄ in
      let (trusted, h₆) = (guard-then_iff _ _ _ _).0 h₅ in
      let (open_, h₇) = (guard-then_iff _ _ _ _).0 h₆ in
      let (scoped, h₈) = (guard-then_iff _ _ _ _).0 h₇ in
      let (permitted, h₉) = (guard-then_iff _ _ _ _).0 h₈ in
      record {
        live = (not_iff _).0 live;
        fresh = (fresh_iff _ _).0 fresh;
        unsuspended = (not_iff _).0 unsuspended;
        active = active;
        addressed = addressed;
        trusted = (not_iff _).0 trusted;
        open_ = open_;
        scoped = scoped;
        permitted = permitted;
        routed = (guard_iff _ _).0 h₉;
      },
  λ g.
      let h₉ = (guard_iff _ _).1 g.routed in
      let h₈ = (guard-then_iff _ _ _ _).1 (g.permitted, h₉) in
      let h₇ = (guard-then_iff _ _ _ _).1 (g.scoped, h₈) in
      let h₆ = (guard-then_iff _ _ _ _).1 (g.open_, h₇) in
      let h₅ = (guard-then_iff _ _ _ _).1 ((not_iff _).1 g.trusted, h₆) in
      let h₄ = (guard-then_iff _ _ _ _).1 (g.addressed, h₅) in
      let h₃ = (guard-then_iff _ _ _ _).1 (g.active, h₄) in
      let h₂ = (guard-then_iff _ _ _ _).1 ((not_iff _).1 g.unsuspended, h₃) in
      let h₁ = (guard-then_iff _ _ _ _).1 ((fresh_iff _ _).1 g.fresh, h₂) in
      (guard-then_iff _ _ _ _).1 ((not_iff _).1 g.live, h₁),
)

Result-cases :
    {E : Type 0} {A : Type 0} (r : Result E A) → ((a : A) × (r ≡ ok a)) ⊎ ((e : E) × (r ≡ err e))
Result-cases (ok a) = inl (a, refl)
Result-cases (err e) = inr (e, refl)

found_decision :
    (db : AuthStore) (now decision_id : ℕ) (params : CallParams) (row : CallRow)
    → call_row db params.token_digest params.host ≡ ok row
    → (authorize_component_call db now decision_id params).1
      ≡ principal_decision db now decision_id params row
unfolding authorize_component_call
found_decision db now decision_id params row found = rw (found, authorize_component_call) refl

missing_decision :
    (db : AuthStore) (now decision_id : ℕ) (params : CallParams) (e : AuthorizationReason)
    → call_row db params.token_digest params.host ≡ err e
    → (authorize_component_call db now decision_id params).1
      ≡ denied invalid_token params.correlation_id decision_id
unfolding authorize_component_call
missing_decision db now decision_id params e missing = rw (missing, authorize_component_call) refl

principal_allow_iff :
    (db : AuthStore) (now decision_id : ℕ) (params : CallParams) (row : CallRow)
    → ((principal_decision db now decision_id params row).allow ≡ true) ↔ Granted db now params row
unfolding principal_decision with_base
principal_allow_iff db now decision_id params row = elim (Result-cases (decide db now params row)) [
  | inl (tt, passes) ↦
      rw (passes, principal_decision) (λ h. (decide_iff db now params row).0 passes, λ h. refl)
  | inr (reason, fails) ↦
      rw (fails, principal_decision) (λ h. cc, λ h. cc ((decide_iff db now params row).1 h))
]

-- A call is allowed exactly when its token stands for a principal and the host for a target, and the
-- token is live, unexpired and of the principal's current epoch, no permission of the principal is
-- suspended, the principal is active or probed before its activation, the audience is the target's
-- and the token's, nobody is quarantined, both sides are open or the call is a control callback or a
-- probe, the token carries the scope, and a live permission covers the scope and the route.
pub authorize_iff :
    (db : AuthStore) (now decision_id : ℕ) (params : CallParams)
    → (((authorize_component_call db now decision_id params).1).allow ≡ true) ↔ (
        (row : CallRow) × (call_row db params.token_digest params.host ≡ ok row)
        × Granted db now params row)
unfolding denied
authorize_iff db now decision_id params =
    elim (Result-cases (call_row db params.token_digest params.host)) [
      | inr (e, missing) ↦
          rw (missing_decision db now decision_id params e missing, missing)
            (λ h. cc, λ h. cc (h.1))
      | inl (row, found) ↦
          let granted = principal_allow_iff db now decision_id params row in
          rw (found_decision db now decision_id params row found) (
            λ h. (row, found, granted.0 h),
            λ h.
                let same : h.0 ≡ row = cc (h.1, found) in
                granted.1 (subst (λ (r : CallRow). Granted db now params r) same (h.2)),
          )
    ]

-- The token found by a digest, after the write of an allowed call.
token_of-mark_used :
    (digest now k : ℕ) (tokens : List TokenRow)
    → find (λ (t : TokenRow). t.lookup_digest == k) (mark_used digest now tokens)
      ≡ option_map
          (λ (t : TokenRow).
            if t.lookup_digest == digest then record t { last_used_at = some now } else t)
          (find (λ (t : TokenRow). t.lookup_digest == k) tokens)
unfolding mark_used
token_of-mark_used digest now k tokens = find-update_where _ _ _ (λ x. refl) tokens

-- What a call leaves of the tokens.
abbrev pub TokensAfter : AuthStore → ℕ → ℕ → Bool → List TokenRow → Type 0
TokensAfter db digest now true tokens =
    (k : ℕ)
    → find (λ (t : TokenRow). t.lookup_digest == k) tokens
      ≡ option_map
          (λ (t : TokenRow).
            if t.lookup_digest == digest then record t { last_used_at = some now } else t)
          (find (λ (t : TokenRow). t.lookup_digest == k) db.tokens)
TokensAfter db digest now false tokens = tokens ≡ db.tokens

-- A decision adds one event to the audit log, which says whether the call was allowed, under the call's
-- correlation, and leaves the tables of principals, components and permissions as they were. A call that is
-- refused leaves the tokens as well; one that is allowed sets the moment of the last use on the token
-- with its digest and changes no token otherwise.
pub authorize_effects :
    (db : AuthStore) (now decision_id : ℕ) (params : CallParams)
    → let (after, decision) = authorize_component_call db now decision_id params in
      (event : AuditInput) × (after.audit ≡ event ∷ db.audit)
      × (event.event_type ≡ (
          if decision.allow
          then "component_authorization.allowed"
          else "component_authorization.denied"))
      × (event.correlation_id ≡ params.correlation_id)
      × TokensAfter db params.token_digest now decision.allow after.tokens
      × (after.principals ≡ db.principals)
      × (after.components ≡ db.components)
      × (after.component_permissions ≡ db.component_permissions)
      × (after.principal_permissions ≡ db.principal_permissions)
unfolding authorize_component_call append_audit redacted_event denied decision_event missing_event
authorize_effects db now decision_id params =
    elim (Result-cases (call_row db params.token_digest params.host)) [
      | inr (e, missing) ↦
          rw (missing, authorize_component_call) (_, refl, refl, refl, refl, refl, refl, refl, refl)
      | inl (row, found) ↦
          elim (Bool-cases (principal_decision db now decision_id params row).allow) [
            | inl lets ↦
                rw (found, authorize_component_call, lets)
                  (
                    _,
                    refl,
                    refl,
                    refl,
                    λ k. token_of-mark_used params.token_digest now k db.tokens,
                    refl,
                    refl,
                    refl,
                    refl,
                  )
            | inr stops ↦
                rw (found, authorize_component_call, stops)
                  (_, refl, refl, refl, refl, refl, refl, refl, refl)
          ]
    ]
