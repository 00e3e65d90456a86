-- ===== src/ServerState/Lifecycle/Paths.antt =====
-- Which states a server can have passed through (server-state.ts).
use kajovo_cml.Prelude.{
  Bool, true, false, ◌||◌, List, [], ◌∷◌, ◌≡◌, refl, arith, ◌==◌, any, inl, inr, Bool-cases, ap,
  ◌∙◌,
}
use kajovo_cml.Types.{
  RegistrationState, documentation_incomplete, pending_tech_review, pending_security_review,
  rejected, registration_eq,
}
use kajovo_cml.ServerState.Lifecycle.{allowed}

-- A history of allowed transitions, with the states that it has left, the latest first.
pub data History : RegistrationState → List RegistrationState → RegistrationState → Type 0 where
  start : {s : RegistrationState} → History s [] s
  move :
      {s t u : RegistrationState} {left : List RegistrationState}
      → History s left t
      → allowed t u ≡ true
      → History s (t ∷ left) u

abbrev pub visited : RegistrationState → List RegistrationState → Bool
visited s left = any (λ t. t == s) left

-- The states behind the security review, and those behind the RegistrationState.trial.
abbrev past_review : RegistrationState → Bool
past_review RegistrationState.draft = false
past_review documentation_incomplete = false
past_review pending_tech_review = false
past_review pending_security_review = false
past_review rejected = false
past_review _ = true

reviewed_edge :
    (t u : RegistrationState)
    → allowed t u ≡ true
    → past_review u ≡ true
    → (t == pending_security_review || past_review t) ≡ true
unfolding allowed
reviewed_edge t u a p = ground arith

-- A property of states that a start lacks is entered by an edge out of a given state.
entered :
    (p : RegistrationState → Bool) (via : RegistrationState)
    → ((t u : RegistrationState) → allowed t u ≡ true → p u ≡ true → (t == via || p t) ≡ true)
    → {s u : RegistrationState} {left : List RegistrationState} → History s left u
    → p s ≡ false
    → p u ≡ true
    → visited via left ≡ true
entered p via edge start e h = cc
entered p via edge (move {t = t} {u = u} {left = left} history a) e h =
    elim (Bool-cases (t == via)) [
      | inl here ↦ ground arith
      | inr _ ↦ ground (arith, edge t u a h, entered p via edge history e)
    ]

trial_edge :
    (t u : RegistrationState)
    → allowed t u ≡ true
    → (u == RegistrationState.active) ≡ true
    → (t == RegistrationState.trial || (t == RegistrationState.active)) ≡ true
unfolding allowed
trial_edge t u a p = ground arith

abbrev is_served : RegistrationState → Bool
is_served RegistrationState.trial = true
is_served RegistrationState.active = true
is_served _ = false

served_edge :
    (t u : RegistrationState)
    → allowed t u ≡ true
    → is_served u ≡ true
    → (t == RegistrationState.registered_disabled || is_served t) ≡ true
unfolding allowed
served_edge t u a p = ground arith

-- However a server came from its draft to `ACTIVE`, it was in security review, registered but
-- disabled, and on trial before.
pub active_history :
    {left : List RegistrationState}
    → History RegistrationState.draft left RegistrationState.active
    → (visited pending_security_review left ≡ true)
      × (visited RegistrationState.registered_disabled left ≡ true)
      × (visited RegistrationState.trial left ≡ true)
active_history history = (
  entered past_review pending_security_review reviewed_edge history refl refl,
  entered is_served RegistrationState.registered_disabled served_edge history refl refl,
  entered (λ s. s == RegistrationState.active) RegistrationState.trial trial_edge history refl refl,
)

abbrev pub is_final : RegistrationState → Bool
is_final rejected = true
is_final RegistrationState.retired = true
is_final _ = false

final_exit : (t u : RegistrationState) → is_final t ≡ true → allowed t u ≡ false
unfolding allowed
final_exit t u f = ground arith

-- A rejected or retired server stays so: the only history from it is the empty one.
pub final_history :
    {s u : RegistrationState} {left : List RegistrationState}
    → is_final s ≡ true
    → History s left u
    → (u ≡ s) × (left ≡ [])
final_history f start = (refl, refl)
final_history {s} f (move {t = t} {u = u} history a) =
    let (same, _) = final_history f history in cc (a, final_exit t u (ap is_final same ∙ f))
