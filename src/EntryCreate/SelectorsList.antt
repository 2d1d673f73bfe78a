-- ===== src/EntryCreate/SelectorsList.antt =====
-- `prepareSelectorsList`: the selectors that the form offers for the chosen parent.
use tornjak.Prelude.{
  Bool, true, false, not, Option, none, some, List, [], ◌∷◌, ◌++◌, map, filter, head?,
  if◌then◌else◌,
}
use tornjak.Js.{Text, codes, ◌===◌, includes}
use tornjak.Types.{Agent, Entry, AttestorInfo, SelectorInfo}
use tornjak.Spiffe.Ids.{prefix, get_agent_spiffeid, get_entry_spiffeid}
use tornjak.Spiffe.Association.{get_canonical_agent_spiffeid}
use tornjak.EntryCreate.State.{State, Props}

-- `info[name]`
unfoldable pub labels : Text → SelectorInfo → Option (List Text)
unfolding ◌===◌
labels name [] = none
labels name ((k, ls) ∷ info) = if k === name then some ls else labels name info

unfoldable pub offer_for_server : Props → State → State
offer_for_server props s =
    let info = props.global_selector_info in
    let plugin = props.node_attestor_plugin in
    if plugin === codes "aws_iid"
    then record s { selectors_list = labels (codes "aws_iid") info }
    else if plugin === codes "gcp_iit"
    then record s { selectors_list = labels (codes "gcp_iit") info }
    else if plugin === codes "k8s_psat"
    then record s { selectors_list = labels (codes "k8s_psat") info }
    else s

abbrev pub or_parent : Text → Text → Text
or_parent parent_id [] = parent_id
or_parent parent_id (c ∷ s) = c ∷ s

abbrev pub canonical_of : Text → List Agent → Option Entry → Text
canonical_of parent_id agents none = parent_id
canonical_of parent_id agents (some e) = or_parent parent_id (get_canonical_agent_spiffeid e agents)

-- The agent that is taken for the parent: the parent itself, or its canonical agent if there is one.
unfoldable pub agent_of_parent : Text → List Agent → List Entry → Text
unfolding ◌===◌ get_agent_spiffeid get_entry_spiffeid get_canonical_agent_spiffeid
agent_of_parent parent_id agents entries =
    if not (includes (map (λ a. get_agent_spiffeid (some a)) agents) parent_id)
    then canonical_of parent_id agents
        (head? (filter (λ e. get_entry_spiffeid (some e) === parent_id) entries))
    else parent_id

abbrev pub offer_for_plugin : Text → SelectorInfo → State → State
offer_for_plugin plugin info s =
    if plugin === codes "Docker"
    then record s { selectors_list = labels (codes "Docker") info }
    else if plugin === codes "Kubernetes"
    then record s { selectors_list = labels (codes "Kubernetes") info }
    else if plugin === codes "Unix"
    then record s { selectors_list = labels (codes "Unix") info }
    else s

-- The loop over the attestor information, with `agentSelectorSet`.
unfoldable pub offer_for_agent :
    Text → SelectorInfo → List AttestorInfo → Bool → State → Bool × State
offer_for_agent agent_id info [] done s = (done, s)
offer_for_agent agent_id info (i ∷ is) done s =
    let found = agent_id === i.spiffeid in
    offer_for_agent agent_id info is (if found then true else done)
      (if found then offer_for_plugin i.plugin info s else s)

abbrev pub none_offered : Bool × State → State
none_offered (true, s) = s
none_offered (false, s) = record s {
  selectors_list = some [];
  selectors_list_display = codes "Select Selectors";
}

-- The loop needs the list of the information: `length` of `undefined` throws.
abbrev pub offer_among : Text → SelectorInfo → Option (List AttestorInfo) → State → Option State
offer_among agent_id info none s = none
offer_among agent_id info (some infos) s =
    some (none_offered (offer_for_agent agent_id info infos false s))

abbrev pub offer : Props → Text → List Agent → List Entry → State → Option State
offer props trust_domain agents entries s =
    if s.parent_id === (prefix ++ (trust_domain ++ codes "/spire/server"))
    then some (offer_for_server props s)
    else if s.parent_id === []
    then some s
    else offer_among (agent_of_parent s.parent_id agents entries)
        props.global_workload_selector_info props.global_agents_work_load_attestor_info s

-- `svid_chain[0]` of an object with no keys throws, which `none` stands for.
unfoldable pub prepare_selectors_list : Props → State → Option State
prepare_selectors_list props s = elim props.global_debug_server_info [
  | none ↦ some s
  | some debug ↦ elim props.global_agents_list [
    | none ↦ some s
    | some agents ↦ elim props.global_entries_list [
      | none ↦ some s
      | some entries ↦ elim debug [
        | none ↦ none
        | some trust_domain ↦ offer props trust_domain agents entries s
      ]
    ]
  ]
]
