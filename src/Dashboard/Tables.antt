-- ===== src/Dashboard/Tables.antt =====
-- The tables of the dashboard with their filters, and the tables of a page: agentList, entryList and
-- clusterList of frontend/src/components/dashboard/agents-dashboard-table.tsx,
-- entries-dashboard-table.tsx and clusters-dashboard-table.tsx, and dashboard-details.js.
use tornjak.Prelude.{ℕ, Bool, false, ◌||◌, Option, none, some, List, [], map, filter}
use tornjak.Js.{Text, ◌===◌}
use tornjak.Types.{Agent, AttestorInfo, Cluster, Entry}
use tornjak.Dashboard.Rows.{
  ClusterRow, get_cluster_metadata, AgentRow, get_dashboard_agent_meta_data, EntryRow,
  workload_entry,
}
use tornjak.Dashboard.Details.{Selected, nothing, cluster_row, agent_row, entry_row}

-- What the tables read of the store. A list is `none` while it is undefined.
pub record TableProps : Type 0 where
  pub to_date : ℕ → Text
  pub now : ℕ
  pub clusters : Option (List Cluster)
  pub agents : Option (List Agent)
  pub entries : Option (List Entry)
  pub infos : Option (List AttestorInfo)

-- `filter !== undefined && s === filter`
abbrev pub passes : Text → Option Text → Bool
passes s none = false
passes s (some f) = s === f

-- The row passes unless there is a filter and none lets it pass.
abbrev pub agent_passes : Option Text → Option Text → AgentRow → Bool
agent_passes by_cluster by_agent r = passes r.cluster_name by_cluster || passes r.id by_agent

abbrev filtered_agents : Option Text → Option Text → List AgentRow → List AgentRow
filtered_agents none none rows = rows
filtered_agents none (some a) rows = filter (agent_passes none (some a)) rows
filtered_agents (some c) by_agent rows = filter (agent_passes (some c) by_agent) rows

abbrev pub all_agent_rows : TableProps → List Agent → List Entry → List AgentRow
all_agent_rows props agents entries =
    map (λ a. get_dashboard_agent_meta_data props.now a entries props.infos) agents

abbrev agents_of : TableProps → Option (List Agent) → Option (List Entry) → List AgentRow
agents_of props none entries = []
agents_of props (some agents) none = []
agents_of props (some agents) (some entries) = all_agent_rows props agents entries

unfoldable pub agent_list : TableProps → Option Text → Option Text → List AgentRow
unfolding ◌===◌ get_dashboard_agent_meta_data
agent_list props by_cluster by_agent =
    filtered_agents by_cluster by_agent (agents_of props props.agents props.entries)

abbrev pub entry_passes : Option Text → Option Text → EntryRow → Bool
entry_passes by_cluster by_agent r =
    passes r.cluster_name by_cluster
    || passes r.parent_id by_agent
    || passes r.canonical_agent_id by_agent

abbrev filtered_entries : Option Text → Option Text → List EntryRow → List EntryRow
filtered_entries none none rows = rows
filtered_entries none (some a) rows = filter (entry_passes none (some a)) rows
filtered_entries (some c) by_agent rows = filter (entry_passes (some c) by_agent) rows

abbrev pub all_entry_rows : TableProps → List Agent → List Entry → List EntryRow
all_entry_rows props agents entries =
    map (λ e. workload_entry props.to_date props.now e props.infos agents entries) entries

abbrev entries_of : TableProps → Option (List Agent) → Option (List Entry) → List EntryRow
entries_of props none entries = []
entries_of props (some agents) none = []
entries_of props (some agents) (some entries) = all_entry_rows props agents entries

unfoldable pub entry_list : TableProps → Option Text → Option Text → List EntryRow
unfolding ◌===◌ workload_entry
entry_list props by_cluster by_agent =
    filtered_entries by_cluster by_agent (entries_of props props.agents props.entries)

abbrev filtered_clusters : Option Text → List ClusterRow → List ClusterRow
filtered_clusters none rows = rows
filtered_clusters (some c) rows = filter (λ (r : ClusterRow). r.name === c) rows

-- The rows of clusters need the lists of agents and entries: undefined lists throw, and enter here as
-- empty ones.
abbrev or_empty {ℓ} : {A : Type ℓ} → Option (List A) → List A
or_empty none = []
or_empty (some xs) = xs

unfoldable pub cluster_list : TableProps → Option Text → List ClusterRow
unfolding ◌===◌ get_cluster_metadata
cluster_list props by_cluster = filtered_clusters by_cluster (
    map (λ c. get_cluster_metadata c (or_empty props.entries) (or_empty props.agents))
      (or_empty props.clusters))

-- `selectedDataKey`, where a key that is not set is undefined. The clicked table and the kind of the
-- selected data agree: both come from the page's address.
pub record SelectedDataKey : Type 0 where
  pub agents_filter : Option Text
  pub entries_filter : Option Text
  pub clusters_filter : Option Text

unfoldable pub selected_data_key : Selected → SelectedDataKey
selected_data_key nothing = record {
  agents_filter = none;
  entries_filter = none;
  clusters_filter = none;
}
selected_data_key (cluster_row r) = record {
  agents_filter = some r.name;
  entries_filter = some r.name;
  clusters_filter = none;
}
selected_data_key (agent_row r) = record {
  agents_filter = none;
  entries_filter = some r.spiffeid;
  clusters_filter = some r.cluster_name;
}
selected_data_key (entry_row r) = record {
  agents_filter = some r.parent_id;
  entries_filter = none;
  clusters_filter = some r.cluster_name;
}

-- The tables of the page for selected data; `none` is a table that the page does not have.
pub record PageTables : Type 0 where
  pub clusters : Option (List ClusterRow)
  pub agents : Option (List AgentRow)
  pub entries : Option (List EntryRow)

unfoldable pub details_tables : TableProps → Selected → PageTables
unfolding selected_data_key cluster_list agent_list entry_list
details_tables props nothing = record { clusters = none; agents = none; entries = none }
details_tables props (cluster_row r) =
    let key = selected_data_key (cluster_row r) in
    record {
      clusters = none;
      agents = some (agent_list props key.agents_filter none);
      entries = some (entry_list props key.entries_filter none);
    }
details_tables props (agent_row r) =
    let key = selected_data_key (agent_row r) in
    record {
      clusters = some (cluster_list props key.clusters_filter);
      agents = none;
      entries = some (entry_list props none key.entries_filter);
    }
details_tables props (entry_row r) =
    let key = selected_data_key (entry_row r) in
    record {
      clusters = some (cluster_list props key.clusters_filter);
      agents = some (agent_list props none key.agents_filter);
      entries = none;
    }
