-- ===== src/ServerState/Lifecycle/Tests.antt =====
-- The life of one server.
use kajovo_cml.Prelude.{List, [], ◌∷◌, ◌≡◌, refl, true}
use kajovo_cml.Types.{
  RegistrationState, pending_tech_review, pending_security_review, pending_test, approved,
}
use kajovo_cml.ServerState.Lifecycle.{allowed}
use kajovo_cml.ServerState.Lifecycle.Paths.{History, start, move, visited, active_history}

abbrev left_states : List RegistrationState
left_states =
    RegistrationState.trial ∷ RegistrationState.registered_disabled ∷ approved ∷ pending_test
    ∷ pending_security_review ∷ pending_tech_review ∷ RegistrationState.draft ∷ []

abbrev full_history : History RegistrationState.draft left_states RegistrationState.active
unfolding allowed
full_history =
    move (move (move (move (move (move (move start refl) refl) refl) refl) refl) refl) refl

active_history_example :
    (visited pending_security_review left_states ≡ true)
    × (visited RegistrationState.registered_disabled left_states ≡ true)
    × (visited RegistrationState.trial left_states ≡ true)
unfolding full_history allowed
active_history_example = active_history full_history
