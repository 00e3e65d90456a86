-- ===== src/WedosDns/Rows.antt =====
-- The rows of a zone that belong to an operation, and the calls of the provider.
-- (apps/server/src/tls/wedos-dns-operation.ts)
use kajovo_cml.Prelude.{
  Bool, false, not, ◌&&◌, ◌==◌, nat_eq, text_eq, Option, none, some, List, [], ◌∷◌, ◌++◌, filter,
  if◌then◌else◌,
}
use kajovo_cml.Security.Text.{codes}
use kajovo_cml.WedosDns.Names.{Text, upper_text}
use kajovo_cml.WedosDns.Store.{
  State, state_name, is_in, final_states, Operation, WdnsRow, Snapshot, Call, rows_list,
  observe_dns, resolve_txt, Service, M, ◌>>=◌, ◌>>◌, return, throw, require, ask,
}

abbrev pub is_final : State → Bool
is_final = is_in final_states

unfoldable pub is_exact : Operation → Text → WdnsRow → Bool
is_exact operation value row =
    row.name == operation.record_name
    && row.rdtype == codes "TXT"
    && row.rdata == value
    && row.author_comment == operation.author_comment

-- None, the only element, or a refusal.
abbrev pub single : List WdnsRow → M (Option WdnsRow)
single [] = return none
single (row ∷ []) = return (some row)
single (row ∷ other ∷ rows) = throw (codes "wedos_dns_owned_row_ambiguous")

abbrev pub or_throw : {A : Type 0} → Option A → Text → M A
or_throw none message = throw message
or_throw (some a) message = return a

abbrev pub not_allowed : {A : Type 0} → Text → Operation → M A
not_allowed what operation = throw (what ++ state_name operation.state)

-- The head of an operation: what is past it is returned as it is, and what is not before it is refused.
unfoldable pub entered : List State → List State → Text → M Operation → Operation → M Operation
entered past before message m operation =
    if is_in past operation.state
    then return operation
    else if not (is_in before operation.state)
    then not_allowed message operation
    else m

-- `owned.id.toUpperCase() === operation.wedosRowId.toUpperCase()`, where both are there.
unfoldable pub is_own_row : Operation → Option WdnsRow → Bool
is_own_row operation none = false
is_own_row operation (some row) = elim operation.wedos_row_id [
  | none ↦ false
  | some row_id ↦ not (row_id == []) && upper_text row.id == upper_text row_id
]

abbrev pub discard : {A : Type 0} → M A → M (Unit {0})
discard m = m >>= λ a. return tt

module _ (digest : Text → Text) (service : Service) where
  abbrev pub ask_rows : Text → M (List WdnsRow)
  ask_rows zone = ask (rows_list zone) (λ calls. service.rows calls zone)

  abbrev pub command : Call → M (Unit {0})
  command call = ask call (λ calls. service.done calls call)

  unfoldable pub list_exact_owned_row : Operation → Text → M (Option WdnsRow)
  unfolding is_exact
  list_exact_owned_row operation value = do
    require (digest value == operation.value_digest) (codes "wedos_dns_value_digest_mismatch")
    rows ← ask_rows operation.zone
    single (filter (is_exact operation value) rows)

  abbrev pub observe : Operation → Text → M Snapshot
  observe operation value =
      let call = observe_dns operation.zone operation.record_name value in
      ask call (λ calls. service.observed calls call)

  abbrev pub resolve : Operation → Text → Bool → Option Snapshot → M (Unit {0})
  resolve operation value expected_present baseline =
      command (resolve_txt operation.zone operation.record_name value expected_present baseline)
