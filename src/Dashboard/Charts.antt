-- ===== src/Dashboard/Charts.antt =====
-- The sections of the two pie charts: frontend/src/components/dashboard/agents-pie-chart.tsx and
-- clusters-pie-chart.tsx.
use tornjak.Prelude.{ℕ, Option, none, some, List, [], ◌∷◌, map, filter, length}
use tornjak.Js.{Text, includes, add, make_set}
use tornjak.Types.{Agent, Cluster, Entry}
use tornjak.Spiffe.Ids.{get_agent_spiffeid, get_entry_spiffeid, get_entry_parentid}
use tornjak.Spiffe.Association.{Dict, lookup, get_agents_entries}

pub record Section : Type 0 where
  pub group : Text
  pub value : ℕ

unfoldable pub add_ids : List Text → List Entry → List Text
unfolding add
add_ids valid_ids [] = valid_ids
add_ids valid_ids (e ∷ es) = add_ids (add valid_ids (get_entry_spiffeid (some e))) es

abbrev entries_at : Text → Option Dict → Option (List Entry)
entries_at id none = none
entries_at id (some dict) = lookup id dict

abbrev or_no_entries : Option (List Entry) → List Entry
or_no_entries none = []
or_no_entries (some es) = es

-- The chart asks for it only if the store's lists are there.
unfoldable pub get_child_entries : List Entry → Agent → Option Dict → Section
unfolding get_agent_spiffeid get_entry_spiffeid get_entry_parentid add_ids make_set lookup
get_child_entries global_entries agent agent_entries_dict =
    let spiffeid = get_agent_spiffeid (some agent) in
    let agent_entries = or_no_entries (entries_at spiffeid agent_entries_dict) in
    let valid_ids = add_ids (make_set (spiffeid ∷ [])) agent_entries in
    record {
      group = spiffeid;
      value =
          length (filter (λ e. includes valid_ids (get_entry_parentid (some e))) global_entries);
    }

unfoldable pub agent_sections : Option (List Agent) → Option (List Entry) → List Section
unfolding get_child_entries get_agents_entries
agent_sections none entries = []
agent_sections (some agents) none = []
agent_sections (some agents) (some entries) =
    map (λ a. get_child_entries entries a (get_agents_entries (some agents) (some entries))) agents

unfoldable pub cluster_sections : Option (List Cluster) → List Section
cluster_sections none = []
cluster_sections (some clusters) =
    map (λ (c : Cluster). record { group = c.name; value = length c.agents_list }) clusters
