-- ===== src/WedosDns/Store.antt =====
-- The table `wedos_dns_operation`, the calls that leave the process, and the steps of an `async`
-- function over them (apps/server/src/tls/wedos-dns-operation.ts).
use kajovo_cml.Prelude.{
  ℕ, ◌+◌, Bool, true, false, ◌==◌, nat_eq, Option, none, some, option_map, List, [], ◌∷◌, ◌++◌, any,
  if◌then◌else◌, Result, ok, err,
}
use kajovo_cml.Security.Text.{codes}
use kajovo_cml.Audit.{AuditLog}
use kajovo_cml.WedosDns.Names.{Text, Error, error, Purpose, safe_error_code}

pub data State : Type 0 where
  created row_added committed propagated cleanup_requested deleted cleanup_propagated failed
        blocked :
      State

abbrev pub rank : State → ℕ
rank created = 0
rank row_added = 1
rank committed = 2
rank propagated = 3
rank cleanup_requested = 4
rank deleted = 5
rank cleanup_propagated = 6
rank failed = 7
rank blocked = 8

abbrev pub state_name : State → Text
state_name created = codes "CREATED"
state_name row_added = codes "ROW_ADDED"
state_name committed = codes "COMMITTED"
state_name propagated = codes "PROPAGATED"
state_name cleanup_requested = codes "CLEANUP_REQUESTED"
state_name deleted = codes "DELETED"
state_name cleanup_propagated = codes "CLEANUP_PROPAGATED"
state_name failed = codes "FAILED"
state_name blocked = codes "BLOCKED"

-- `states.includes(state)`, and `state=any(…)` of a query.
abbrev pub is_in : List State → State → Bool
is_in states s = any (λ t. rank t == rank s) states

abbrev pub final_states : List State
final_states = cleanup_propagated ∷ failed ∷ blocked ∷ []

-- A row without its key and without the moments that no operation reads.
pub record Operation : Type 0 where
  pub purpose : Purpose
  pub correlation_id : Text
  pub zone : Text
  pub record_name : Text
  pub value_digest : Text
  pub author_comment : Text
  pub wedos_row_id : Option Text
  pub state : State
  pub attempt_count : ℕ
  pub last_safe_error_code : Option Text

pub record WdnsRow : Type 0 where
  pub id : Text
  pub name : Text
  pub ttl : ℕ
  pub rdtype : Text
  pub rdata : Text
  pub author_comment : Text

pub data Response : Type 0 where
  answered network_failure protocol_failure : Response

pub data SoaStatus : Type 0 where
  available soa_network_failure soa_protocol_failure : SoaStatus

pub record Observation : Type 0 where
  pub authority : Text
  pub address : Text
  pub response : Response
  pub soa_status : SoaStatus
  pub soa_serial : Option Text
  pub expected_txt_present : Option Bool

pub record Snapshot : Type 0 where
  pub zone : Text
  pub elapsed_seconds : ℕ
  pub observations : List Observation

-- What leaves the process: the commands of the provider's API and the questions to name servers.
pub data Call : Type 0 where
  rows_list : (zone : Text) → Call
  row_add : (zone name value author_comment : Text) (ttl : ℕ) → Call
  row_delete : (zone row_id : Text) → Call
  domain_commit : (zone : Text) → Call
  observe_dns : (zone record_name value : Text) → Call
  resolve_txt :
      (zone record_name value : Text) (expected_present : Bool) (baseline : Option Snapshot) → Call
  txt_values : (zone record_name : Text) → Call

-- The provider and the name servers: each answer may depend on all the calls so far, the newest first.
pub record Service : Type 0 where
  pub rows : List Call → Text → Result Error (List WdnsRow)
  pub done : List Call → Call → Result Error (Unit {0})
  pub observed : List Call → Call → Result Error Snapshot
  pub values : List Call → Call → Result Error (List Text)

pub record World : Type 0 where
  pub operations : ℕ → Option Operation
  pub calls : List Call
  pub events : AuditLog

-- An `async` function: what it returns or throws, and the world behind it.
abbrev pub M : Type 0 → Type 0
M A = World → Result Error A × World

abbrev pub proceed : {A B : Type 0} → (A → M B) → Result Error A × World → Result Error B × World
proceed f (ok a, w) = f a w
proceed f (err e, w) = (err e, w)

infixl 5 ◌>>=◌ ◌>>◌
abbrev pub ◌>>=◌ : {A B : Type 0} → M A → (A → M B) → M B
◌>>=◌ m f w = proceed f (m w)

abbrev pub ◌>>◌ : {B : Type 0} → M (Unit {0}) → M B → M B
m >> k = m >>= λ _. k

abbrev pub return : {A : Type 0} → A → M A
return a w = (ok a, w)

abbrev pub throw : {A : Type 0} → Text → M A
throw message w = (err (error message), w)

-- `if (!test) throw …`.
abbrev pub require : Bool → Text → M (Unit {0})
require true message w = (ok tt, w)
require false message w = (err (error message), w)

-- A call with its answer; the call is in the history when the next one is made.
abbrev pub ask : {A : Type 0} → Call → (List Call → Result Error A) → M A
ask call answer w = (answer w.calls, record w { calls = call ∷ w.calls })

-- `update … where id=$1`.
abbrev pub changed : ℕ → (Operation → Operation) → World → World
changed id f w = record w {
  operations = λ k. if k == id then option_map f (w.operations k) else w.operations k;
}

abbrev pub change : ℕ → (Operation → Operation) → M (Unit {0})
change id f w = (ok tt, changed id f w)

abbrev pub read_row : Option Operation → M Operation
read_row none w = (err (error (codes "wedos_dns_operation_not_found")), w)
read_row (some operation) w = (ok operation, w)

unfoldable pub get_operation : ℕ → M Operation
get_operation id w = read_row (w.operations id) w

abbrev pub attempted : Operation → Operation
attempted operation = if is_in final_states operation.state then operation else record operation {
  attempt_count = operation.attempt_count + 1;
  last_safe_error_code = none;
}

abbrev pub faulted : Error → Operation → Operation
faulted e operation =
    if is_in final_states operation.state
    then operation
    else record operation { last_safe_error_code = some (safe_error_code e) }

unfoldable pub record_attempt : ℕ → M (Unit {0})
record_attempt id = change id attempted

unfoldable pub record_safe_error : ℕ → Error → M (Unit {0})
record_safe_error id e = change id (faulted e)

abbrev pub advanced : List State → State → Operation → Operation
advanced expected next operation =
    if is_in expected operation.state then record operation { state = next } else operation

abbrev pub already_there : State → Operation → M (Unit {0})
already_there next current = require (rank current.state == rank next) (
    codes "wedos_dns_invalid_transition:"
    ++ state_name current.state
    ++ codes "->"
    ++ state_name next)

abbrev pub matches : List State → Option Operation → Bool
matches expected none = false
matches expected (some operation) = is_in expected operation.state

-- Where no row matches, the operation may be there already.
unfoldable pub update_state : ℕ → List State → State → M (Unit {0})
unfolding get_operation
update_state id expected next w =
    if matches expected (w.operations id)
    then change id (advanced expected next) w
    else (get_operation id >>= already_there next) w

-- The handler around a step: it records the error and throws it again.
abbrev pub rethrown :
    {A : Type 0} → Error → Result Error (Unit {0}) × World → Result Error A × World
rethrown e (ok done, w) = (err e, w)
rethrown e (err f, w) = (err f, w)

abbrev pub settled : {A : Type 0} → ℕ → Result Error A × World → Result Error A × World
settled id (ok a, w) = (ok a, w)
settled id (err e, w) = rethrown e (record_safe_error id e w)

abbrev pub try_recorded : {A : Type 0} → ℕ → M A → M A
try_recorded id m w = settled id (m w)
