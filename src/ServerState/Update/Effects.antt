-- ===== src/ServerState/Update/Effects.antt =====
-- When the operations of server-state.ts succeed, and what they then write.
use kajovo_cml.Prelude.{
  ℕ, ◌<◌, suc, true, none, some, ◌∷◌, ◌==◌, nat_eq, ◌≡◌, ◌≢◌, refl, ◌↔◌, ◌⊎◌, inl, inr, arith, ok,
  err, Option-cases, Bool-cases, option_map, find-update_where, find-passes, nat_beq_iff, length,
  if◌then◌else◌, sym, ◌∙◌, ap, >>_iff, ◌>>◌,
}
use kajovo_cml.Types.{RegistrationState, registration_eq}
use kajovo_cml.Recertification.{RecertificationDecision, evaluate_recertification}
use kajovo_cml.Recertification.Windows.{IsReviewed}
use kajovo_cml.Recertification.Serving.{permissions-IsReviewed}
use kajovo_cml.Audit.{uuid, AuditInput, redacted_event, append_audit}
use kajovo_cml.ServerState.Lifecycle.{serves, operational_state_for}
use kajovo_cml.ServerState.Store.{Store, ServerRow}
use kajovo_cml.ServerState.Checks.{
  TransitionParams, not_found, Clocks, revision_of, recertification_input, is_monitored, profile_of,
  check_transition,
}
use kajovo_cml.ServerState.Checks.Guards.{Permitted, check_transition_iff}
use kajovo_cml.ServerState.Rows.{moved_server, transition_event}
use kajovo_cml.ServerState.Update.{
  Transition, server_row, write_transition, transition_server_state,
}

-- The decision that the transition of a server's row rests on.
abbrev pub decision_for : Clocks → Store → ServerRow → RecertificationDecision
decision_for clocks db row =
    evaluate_recertification (recertification_input (revision_of db row)) clocks.process

-- What a successful call returns for the row that it found.
abbrev pub transition_of : Clocks → Store → ServerRow → TransitionParams → Transition
transition_of clocks db row params = record {
  store = write_transition clocks db row params (decision_for clocks db row);
  from = row.registration_state;
  to = params.to;
  operational_state = operational_state_for params.to params.operational_state;
  recertification = decision_for clocks db row;
}

found_transition :
    (clocks : Clocks) (db : Store) (params : TransitionParams) (row : ServerRow)
    → server_row db params.server_id ≡ some row
    → transition_server_state clocks db params ≡ (
        check_transition db row params (decision_for clocks db row)
        >> ok (transition_of clocks db row params))
unfolding transition_server_state
found_transition clocks db params row e = rw e

missing_transition :
    (clocks : Clocks) (db : Store) (params : TransitionParams)
    → server_row db params.server_id ≡ none
    → transition_server_state clocks db params ≡ err not_found
unfolding transition_server_state
missing_transition clocks db params e = rw e

-- A transition succeeds exactly when the server exists and every condition is met: the edge is in the
-- table, a server that is to serve has a current recertification and an enabled monitoring profile,
-- activation has evidence, and a blocked server that is to be registered again has an approval and a
-- revision newer than its last suspension or quarantine.
pub transition_server_state_iff :
    (clocks : Clocks) (db : Store) (params : TransitionParams) (t : Transition)
    → (transition_server_state clocks db params ≡ ok t) ↔ (
        (row : ServerRow) × (server_row db params.server_id ≡ some row)
        × Permitted db row params (decision_for clocks db row)
        × (t ≡ transition_of clocks db row params))
transition_server_state_iff clocks db params t = (
  λ h. elim (Option-cases (server_row db params.server_id)) [
    | inl e ↦ cc (missing_transition clocks db params e, h)
    | inr (row, e) ↦
        let (checked, done) =
          (>>_iff (check_transition db row params (decision_for clocks db row)) _ _).0
            (sym (found_transition clocks db params row e) ∙ h) in
        (row, e, (check_transition_iff db row params _).0 checked, cc)
  ],
  λ p.
      found_transition clocks db params p.0 p.1
      ∙ (>>_iff (check_transition db p.0 params (decision_for clocks db p.0)) _ _).1
          ((check_transition_iff db p.0 params _).1 p.2, ap ok (sym p.3)),
)

-- A server is put on trial or into service only while its active revision is reviewed and not yet
-- due, and only with an enabled monitoring profile.
pub serving-IsReviewed :
    (clocks : Clocks) (db : Store) (params : TransitionParams) (t : Transition)
    → transition_server_state clocks db params ≡ ok t
    → serves params.to ≡ true
    → (row : ServerRow) × (due : ℕ) × (server_row db params.server_id ≡ some row)
      × IsReviewed (recertification_input (revision_of db row)) due
      × (clocks.process < due)
      × (is_monitored (profile_of db row (revision_of db row)) ≡ true)
serving-IsReviewed clocks db params t h served =
    let (row, found, permitted, _) = (transition_server_state_iff clocks db params t).0 h in
    let current : (decision_for clocks db row).can_activate ≡ true = elim permitted.current [
      | inl idle ↦ cc
      | inr c ↦ c
    ] in
    let monitored : is_monitored (profile_of db row (revision_of db row)) ≡ true =
      elim permitted.monitored [ inl idle ↦ cc | inr c ↦ c ] in
    let (due, reviewed, before) =
      (permissions-IsReviewed (recertification_input (revision_of db row)) clocks.process).1.0
        current in
    (row, due, found, reviewed, before, monitored)

serves_iff :
    (to : RegistrationState)
    → (serves to ≡ true) ↔ ((to ≡ RegistrationState.trial) ⊎ (to ≡ RegistrationState.active))
serves_iff RegistrationState.trial = (λ h. inl refl, λ p. refl)
serves_iff RegistrationState.active = (λ h. inr refl, λ p. refl)
serves_iff _ = (λ h. absurd cc, λ p. absurd (elim p [ inl e ↦ cc | inr e ↦ cc ]))

-- The effects of a transition on the servers.
pub server_row-write_transition :
    (clocks : Clocks) (db : Store) (row : ServerRow) (params : TransitionParams) (k : ℕ)
    (decision : RecertificationDecision)
    → server_row (write_transition clocks db row params decision) k
      ≡ option_map
          (λ (ms : ServerRow).
            if ms.id == params.server_id
            then moved_server clocks params.to
                (operational_state_for params.to params.operational_state)
                ms
            else ms)
          (server_row db k)
unfolding write_transition moved_server
server_row-write_transition clocks db row params k decision =
    find-update_where _ _ _ (λ x. refl) db.servers

pub other_row :
    (f : ServerRow → ServerRow) (db : Store) (k server_id : ℕ)
    → k ≢ server_id
    → option_map (λ (ms : ServerRow). if ms.id == server_id then f ms else ms) (server_row db k)
      ≡ server_row db k
other_row f db k server_id n = elim (Option-cases (server_row db k)) [
  | inl e ↦ rw e refl
  | inr (ms, e) ↦
      let key : ms.id ≡ k =
        (nat_beq_iff _ _).0 (find-passes (λ (r : ServerRow). r.id == k) db.servers e) in
      rw e (ground arith)
]

pub moved_row :
    (clocks : Clocks) (db : Store) (row : ServerRow) (params : TransitionParams) (k : ℕ)
    (decision : RecertificationDecision)
    → server_row db params.server_id ≡ some row
    → (server_row (write_transition clocks db row params decision) params.server_id
        ≡ some (
            moved_server clocks params.to
              (operational_state_for params.to params.operational_state)
              row))
      × ((k ≡ params.server_id)
          ⊎ (server_row (write_transition clocks db row params decision) k ≡ server_row db k))
moved_row clocks db row params k decision found = (
  server_row-write_transition clocks db row params params.server_id decision
      ∙ rw found
          (rw (find-passes (λ (ms : ServerRow). ms.id == params.server_id) db.servers found)),
  elim (Bool-cases (k == params.server_id)) [
    | inl same ↦ inl ((nat_beq_iff k params.server_id).0 same)
    | inr other ↦ inr (
        server_row-write_transition clocks db row params k decision
        ∙ other_row _ db k params.server_id (λ e. cc (other, (nat_beq_iff k params.server_id).1 e)))
  ],
)

-- A successful transition puts the server into the state asked for and into the operational state that it
-- reports, enabled exactly for a trial or active service, counts its lock version on, leaves every other
-- server alone, and adds one row of history and one audit event: one on this server, by the actor and
-- under the correlation that were given.
pub transition_server_state_effects :
    (clocks : Clocks) (db : Store) (params : TransitionParams) (t : Transition) (k : ℕ)
    → transition_server_state clocks db params ≡ ok t
    → (row : ServerRow) × (after : ServerRow) × (event : AuditInput) × (server_row db
          params.server_id
        ≡ some row)
      × (server_row t.store params.server_id ≡ some after)
      × (after.registration_state ≡ params.to)
      × (after.operational_state ≡ t.operational_state)
      × ((after.enabled ≡ true)
          ↔ ((params.to ≡ RegistrationState.trial) ⊎ (params.to ≡ RegistrationState.active)))
      × (after.lock_version ≡ suc row.lock_version)
      × ((k ≡ params.server_id) ⊎ (server_row t.store k ≡ server_row db k))
      × (length t.store.histories ≡ suc (length db.histories))
      × (t.store.audit ≡ event ∷ db.audit)
      × (event.object_id ≡ some (uuid params.server_id))
      × (event.actor_id ≡ params.actor_id)
      × (event.correlation_id ≡ params.correlation_id)
unfolding write_transition append_audit moved_server transition_event redacted_event
transition_server_state_effects clocks db params t k h =
    let (row, found, _, result) = (transition_server_state_iff clocks db params t).0 h in
    let (here, others) = moved_row clocks db row params k (decision_for clocks db row) found in
    (
      row,
      moved_server clocks params.to t.operational_state row,
      redacted_event
          (transition_event row (revision_of db row) params t.operational_state t.recertification),
      found,
      rw result here,
      refl,
      refl,
      serves_iff params.to,
      omega arith,
      rw result others,
      rw result refl,
      rw result refl,
      refl,
      refl,
      refl,
    )
