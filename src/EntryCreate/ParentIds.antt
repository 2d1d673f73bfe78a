-- ===== src/EntryCreate/ParentIds.antt =====
-- `prepareParentIdAgentsList`: the parents that the form offers.
pub mod Laws
use tornjak.Prelude.{Option, none, some, List, [], ◌∷◌, ◌++◌, map}
use tornjak.Js.{Text, codes}
use tornjak.Types.{Agent, Entry}
use tornjak.Spiffe.Ids.{prefix, get_agent_spiffeid, get_entry_spiffeid}
use tornjak.Spiffe.Association.{Dict, lookup, get_agents_entries}
use tornjak.EntryCreate.State.{State, Props}

abbrev pub entry_ids : Option (List Entry) → List Text
entry_ids none = []
entry_ids (some es) = map (λ e. get_entry_spiffeid (some e)) es

-- The loop over the agents. With no dictionary it returns from the method.
unfoldable pub list_agents : Option Dict → List Text → List Agent → Option (List Text)
unfolding lookup get_agent_spiffeid get_entry_spiffeid
list_agents d acc [] = some acc
list_agents none acc (agent ∷ agents) = none
list_agents (some d) acc (agent ∷ agents) =
    let id = get_agent_spiffeid (some agent) in
    list_agents (some d) (acc ++ id ∷ entry_ids (lookup id d)) agents

abbrev pub shift : List Text → List Text
shift [] = []
shift (x ∷ xs) = xs

abbrev pub set_lists : Option (List Text) → State → State
set_lists none s = s
set_lists (some ids) s = record s {
  agents_id_list = ids;
  agents_id_list_no_manual_option = shift ids;
}

-- The first two parents that are offered.
abbrev pub fixed_parents : Props → State → List Text
fixed_parents props s =
    s.parent_id_manual_entry_option
    ∷ (prefix ++ (props.server_trust_domain ++ codes "/spire/server"))
    ∷ []

-- `Object.keys` of an undefined object throws, which `none` stands for.
unfoldable pub prepare_parent_id_agents_list : Props → State → Option State
prepare_parent_id_agents_list props s = elim props.global_debug_server_info [
  | none ↦ none
  | some none ↦ some s
  | some (some trust_domain) ↦ elim props.global_agents_list [
    | none ↦ some s
    | some agents ↦
        let d = get_agents_entries (some agents) props.global_entries_list in
        some (set_lists (list_agents d (fixed_parents props s) agents) s)
  ]
]
