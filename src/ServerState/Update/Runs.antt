-- ===== src/ServerState/Update/Runs.antt =====
-- Whole histories of the operations of server-state.ts.
use kajovo_cml.Prelude.{ℕ, Bool, List, String, nat_eq, [], ◌∷◌}
use kajovo_cml.Types.{OperationalState, registration_eq, operational_eq}
use kajovo_cml.Recertification.{RecertificationDecision}
use kajovo_cml.Audit.{Ident}
use kajovo_cml.ServerState.Store.{Store}
use kajovo_cml.ServerState.Checks.{TransitionParams, Clocks}
use kajovo_cml.ServerState.Update.{
  transition_server_state, set_server_enabled, set_computed_operational_state,
}
use kajovo_cml.ServerState.Update.Mirror.{
  IsMirrored, stored_transition, stored_enabling, transition-IsMirrored, stored-IsMirrored,
  enable-IsMirrored, compute-IsMirrored,
}

-- The operations of the module, and the store that each leaves behind.
pub data Operation : Type 0 where
  transition : TransitionParams → Operation
  enable : Ident → ℕ → ℕ → Bool → Operation
  compute : ℕ → OperationalState → String → ℕ → RecertificationDecision → Operation

pub run_operation : Store → Clocks × Operation → Store
run_operation db (clocks, transition params) =
    stored_transition db (transition_server_state clocks db params)
run_operation db (clocks, enable actor correlation server_id enabled) =
    stored_enabling db (set_server_enabled clocks db actor correlation server_id enabled)
run_operation db (clocks, compute server_id state reason correlation decision) =
    set_computed_operational_state clocks db server_id state reason correlation decision

pub run_operations : Store → List (Clocks × Operation) → Store
run_operations db [] = db
run_operations db (o ∷ os) = run_operations (run_operation db o) os

run_operation-IsMirrored :
    (db : Store) (o : Clocks × Operation) → IsMirrored db → IsMirrored (run_operation db o)
unfolding run_operation
run_operation-IsMirrored db (clocks, transition params) v =
    (stored-IsMirrored db (transition_server_state clocks db params)
      (λ t h. transition-IsMirrored clocks db params t h v) v).0
run_operation-IsMirrored db (clocks, enable actor correlation server_id enabled) v =
    enable-IsMirrored clocks db actor correlation server_id enabled v
run_operation-IsMirrored db (clocks, compute server_id state reason correlation d) v =
    compute-IsMirrored clocks db server_id state reason correlation d v

-- No sequence of transitions, of switches by an administrator and of computed operational states, be
-- they accepted or refused, brings a server's `enabled` flag or a linked managed service out of step
-- with the server's registration state.
pub run_operations-IsMirrored :
    (db : Store) (os : List (Clocks × Operation))
    → IsMirrored db
    → IsMirrored (run_operations db os)
unfolding run_operations
run_operations-IsMirrored db [] v = v
run_operations-IsMirrored db (o ∷ os) v =
    run_operations-IsMirrored (run_operation db o) os (run_operation-IsMirrored db o v)
