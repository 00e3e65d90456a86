-- ===== src/ServerState/Checks/Guards.antt =====
-- When the guards of `transitionServerState` pass (server-state.ts).
use kajovo_cml.Prelude.{
  true, false, ◌&&◌, ◌==◌, ◌≡◌, ◌↔◌, ◌⊎◌, ok, guard-then_iff, guard_iff, not-or_iff,
}
use kajovo_cml.Types.{RegistrationState, registration_eq}
use kajovo_cml.Recertification.{RecertificationDecision}
use kajovo_cml.ServerState.Lifecycle.{allowed, serves, is_blocked}
use kajovo_cml.ServerState.Store.{Store, ServerRow}
use kajovo_cml.ServerState.Checks.{
  TransitionParams, revision_of, profile_of, last_quarantine, is_monitored, is_evidence, is_newer,
  check_transition,
}

-- The conditions of a transition of a server in a row's state.
pub record Permitted (db : Store) (server : ServerRow) (params : TransitionParams)
    (decision : RecertificationDecision) : Type 0 where
  pub edge : allowed server.registration_state params.to ≡ true
  pub current : (serves params.to ≡ false) ⊎ (decision.can_activate ≡ true)
  pub monitored :
      (serves params.to ≡ false)
      ⊎ (is_monitored (profile_of db server (revision_of db server)) ≡ true)
  pub evidenced :
      ((params.to == RegistrationState.active) ≡ false)
      ⊎ (is_evidence params.activation_evidence ≡ true)
  pub recovered :
      ((is_blocked server.registration_state && params.to == RegistrationState.registered_disabled)
        ≡ false)
      ⊎ ((params.recovery_approved
            && is_newer (revision_of db server) (last_quarantine server.id db.histories))
          ≡ true)

pub check_transition_iff :
    (db : Store) (server : ServerRow) (params : TransitionParams)
    (decision : RecertificationDecision)
    → (check_transition db server params decision ≡ ok tt) ↔ Permitted db server params decision
unfolding check_transition
check_transition_iff db server params decision = (
  λ h.
      let (edge, h₁) = (guard-then_iff _ _ _ _).0 h in
      let (current, h₂) = (guard-then_iff _ _ _ _).0 h₁ in
      let (monitored, h₃) = (guard-then_iff _ _ _ _).0 h₂ in
      let (evidenced, h₄) = (guard-then_iff _ _ _ _).0 h₃ in
      record {
        edge = edge;
        current = (not-or_iff _ _).0 current;
        monitored = (not-or_iff _ _).0 monitored;
        evidenced = (not-or_iff _ _).0 evidenced;
        recovered = (not-or_iff _ _).0 ((guard_iff _ _).0 h₄);
      },
  λ p. (guard-then_iff _ _ _ _).1 (
    p.edge,
    (guard-then_iff _ _ _ _).1 (
      (not-or_iff _ _).1 p.current,
      (guard-then_iff _ _ _ _).1 (
        (not-or_iff _ _).1 p.monitored,
        (guard-then_iff _ _ _ _).1
            ((not-or_iff _ _).1 p.evidenced, (guard_iff _ _).1 ((not-or_iff _ _).1 p.recovered)),
      ),
    ),
  ),
)
