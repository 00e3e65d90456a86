-- ===== src/ServerState/Update/Mirror.antt =====
-- The tables that repeat a server's state stay in step with it (server-state.ts).
use kajovo_cml.Prelude.{
  ℕ, Bool, true, false, not, Option, none, some, List, String, ◌==◌, nat_eq, ◌≡◌, refl, inl, inr,
  arith, ok, err, Result, Option-cases, Bool-cases, option_beq, option_map, find, update_where,
  find-update_where, All, All-update_where, nat_beq_iff, if◌then◌else◌, is_some, bool_beq, ◌>>=◌,
  All-map,
}
use kajovo_cml.Types.{RegistrationState, OperationalState, registration_eq, operational_eq}
use kajovo_cml.Recertification.{RecertificationDecision}
use kajovo_cml.Audit.{Ident}
use kajovo_cml.ServerState.Lifecycle.{serves, operational_state_for, managed_lifecycle_for}
use kajovo_cml.ServerState.Store.{Store, ServerRow, ManagedRow, ApiState}
use kajovo_cml.ServerState.Checks.{TransitionParams, TransitionError, Clocks}
use kajovo_cml.ServerState.Rows.{moved_server, moved_managed}
use kajovo_cml.ServerState.Update.{
  Transition, server_row, write_transition, transition_server_state, set_server_enabled,
  enabling_params, set_computed_operational_state, is_restated, restated_server,
}
use kajovo_cml.ServerState.Update.Effects.{decision_for, transition_server_state_iff, moved_row}

-- A managed service that stands for a server in a state.
pub record Mirrors (m : ManagedRow) (s : RegistrationState) : Type 0 where
  pub enabled : m.enabled ≡ serves s
  pub lifecycle : m.lifecycle_state ≡ managed_lifecycle_for s
  pub api : m.api_state ≡ (if serves s then ApiState.enabled else ApiState.disabled)
  pub reasoned : is_some m.api_disabled_reason ≡ not (serves s)

abbrev pub MirrorsRow : ManagedRow → Option ServerRow → Type 0
MirrorsRow m none = Unit {0}
MirrorsRow m (some ms) = Mirrors m ms.registration_state

abbrev pub MirrorsLink : List ServerRow → ManagedRow → Option ℕ → Type 0
MirrorsLink servers m none = Unit {0}
MirrorsLink servers m (some server_id) =
    MirrorsRow m (find (λ (ms : ServerRow). ms.id == server_id) servers)

abbrev pub InStep : ServerRow → Type 0
InStep ms = ms.enabled ≡ serves ms.registration_state

-- A server is enabled exactly while its state serves, and the managed services linked to a server
-- repeat its state.
pub record IsMirrored (db : Store) : Type 0 where
  pub servers : All InStep db.servers
  pub managed : All (λ (m : ManagedRow). MirrorsLink db.servers m m.legacy_mcp_server_id) db.managed

moved-Mirrors :
    (clocks : Clocks) (to : RegistrationState) (operational : OperationalState) (reason : String)
    (m : ManagedRow)
    → Mirrors (moved_managed clocks to operational reason m) to
unfolding moved_managed
moved-Mirrors clocks to operational reason m = record {
  enabled = refl;
  lifecycle = refl;
  api = refl;
  reasoned = ground arith;
}

module _ (clocks : Clocks) (db : Store) (row : ServerRow) (params : TransitionParams)
    (decision : RecertificationDecision) (found : server_row db params.server_id ≡ some row) where
  hit_link :
      (m : ManagedRow) (link : Option ℕ)
      → option_beq link (some params.server_id) ≡ true
      → MirrorsLink
          (write_transition clocks db row params decision).servers
          (moved_managed clocks params.to
            (operational_state_for params.to params.operational_state)
            params.reason
            m)
          link
  unfolding moved_server
  hit_link m none e = cc
  hit_link m (some k) e =
      let here = (moved_row clocks db row params k decision found).0 in
      rw ((nat_beq_iff k params.server_id).0 e)
        (rw here (moved-Mirrors clocks params.to _ params.reason m))

  miss_link :
      (m : ManagedRow) (link : Option ℕ)
      → option_beq link (some params.server_id) ≡ false
      → MirrorsLink db.servers m link
      → MirrorsLink (write_transition clocks db row params decision).servers m link
  miss_link m none e h = tt
  miss_link m (some k) e h = elim (moved_row clocks db row params k decision found).1 [
    | inl same ↦ cc (e, (nat_beq_iff k params.server_id).1 same)
    | inr kept ↦ rw kept h
  ]

  write_transition-IsMirrored :
      IsMirrored db → IsMirrored (write_transition clocks db row params decision)
  unfolding write_transition moved_server moved_managed
  write_transition-IsMirrored v = record {
    servers =
        All-update_where InStep InStep (λ (ms : ServerRow). ms.id == params.server_id)
          (moved_server clocks params.to (operational_state_for params.to params.operational_state))
          (λ ms e h. refl) (λ ms e h. h) db.servers v.servers;
    managed =
        All-update_where _ _
          (λ (m : ManagedRow). option_beq m.legacy_mcp_server_id (some params.server_id))
          (moved_managed clocks params.to (operational_state_for params.to params.operational_state)
            params.reason)
          (λ m e h. hit_link m m.legacy_mcp_server_id e)
          (λ m e h. miss_link m m.legacy_mcp_server_id e h) db.managed v.managed;
  }

abbrev pub stored_transition : Store → Result TransitionError Transition → Store
stored_transition db (ok t) = t.store
stored_transition db (err e) = db

abbrev pub stored_enabling :
    Store → Result TransitionError (Store × RegistrationState × OperationalState) → Store
stored_enabling db (ok r) = r.0
stored_enabling db (err e) = db

pub transition-IsMirrored :
    (clocks : Clocks) (db : Store) (params : TransitionParams) (t : Transition)
    → transition_server_state clocks db params ≡ ok t
    → IsMirrored db
    → IsMirrored t.store
transition-IsMirrored clocks db params t h v =
    let (row, found, _, result) = (transition_server_state_iff clocks db params t).0 h in
    rw result
      (write_transition-IsMirrored clocks db row params (decision_for clocks db row) found v)

pub stored-IsMirrored :
    (db : Store) (r : Result TransitionError Transition)
    → ((t : Transition) → r ≡ ok t → IsMirrored t.store)
    → IsMirrored db
    → IsMirrored (stored_transition db r)
      × IsMirrored
          (stored_enabling db (r >>= λ (t : Transition). ok (t.store, t.to, t.operational_state)))
stored-IsMirrored db (ok t) h v = (h t refl, h t refl)
stored-IsMirrored db (err e) h v = (v, v)

pub enable-IsMirrored :
    (clocks : Clocks) (db : Store) (actor : Ident) (correlation server_id : ℕ) (enabled : Bool)
    → IsMirrored db
    → IsMirrored
        (stored_enabling db (set_server_enabled clocks db actor correlation server_id enabled))
unfolding set_server_enabled
enable-IsMirrored clocks db actor correlation server_id enabled v =
    let params = enabling_params actor correlation server_id enabled in
    elim (Option-cases (server_row db server_id)) [
      | inl e ↦ rw e v
      | inr (row, e) ↦ rw e (elim (Bool-cases (bool_beq row.enabled enabled)) [
        | inl same ↦ rw same v
        | inr other ↦
            rw other
              (stored-IsMirrored db (transition_server_state clocks db params)
                (λ t h. transition-IsMirrored clocks db params t h v) v).1
      ])
    ]

module _ (clocks : Clocks) (server_id : ℕ) (state : OperationalState) where
  restated_row :
      (m : ManagedRow) (r : Option ServerRow)
      → MirrorsRow m r
      → MirrorsRow m (
          option_map
            (λ (ms : ServerRow).
              if is_restated server_id state ms then restated_server clocks state ms else ms)
            r)
  unfolding restated_server
  restated_row m none h = tt
  restated_row m (some ms) h = elim (Bool-cases (is_restated server_id state ms)) [
    | inl e ↦ rw e h
    | inr e ↦ rw e h
  ]

  restated_link :
      (servers : List ServerRow) (m : ManagedRow) (link : Option ℕ)
      → MirrorsLink servers m link
      → MirrorsLink
          (update_where (is_restated server_id state) (restated_server clocks state) servers)
          m
          link
  unfolding restated_server
  restated_link servers m none h = tt
  restated_link servers m (some k) h =
      rw
        (find-update_where (λ (ms : ServerRow). ms.id == k) (is_restated server_id state)
          (restated_server clocks state) (λ ms. refl) servers)
        (restated_row m (find (λ (ms : ServerRow). ms.id == k) servers) h)

pub compute-IsMirrored :
    (clocks : Clocks) (db : Store) (server_id : ℕ) (state : OperationalState) (reason : String)
    (correlation : ℕ) (decision : RecertificationDecision)
    → IsMirrored db
    → IsMirrored
        (set_computed_operational_state clocks db server_id state reason correlation decision)
unfolding set_computed_operational_state restated_server
compute-IsMirrored clocks db server_id state reason correlation decision v =
    elim (Option-cases (find (is_restated server_id state) db.servers)) [
      | inl e ↦ rw (e, set_computed_operational_state) v
      | inr (row, e) ↦
          rw (e, set_computed_operational_state)
            (record {
              servers =
                  All-update_where InStep InStep (is_restated server_id state)
                    (restated_server clocks state) (λ ms e h. h) (λ ms e h. h) db.servers v.servers;
              managed =
                  All-map _ _
                    (λ m h.
                      restated_link clocks server_id state db.servers m m.legacy_mcp_server_id h)
                    db.managed v.managed;
            })
    ]
