-- ===== src/Dashboard/Details.antt =====
-- `detailsDataParse`: what the details page shows for the entity and the ID of its address. The
-- decoded ID (`decodeURIComponent` of the parameter `id`, or "") is an argument.
use tornjak.Prelude.{ℕ, Option, some, List, [], ◌∷◌, if◌then◌else◌}
use tornjak.Js.{Text, codes, ◌===◌}
use tornjak.Types.{Agent, AttestorInfo, Cluster, Entry}
use tornjak.Spiffe.Ids.{get_agent_spiffeid}
use tornjak.Dashboard.Rows.{
  ClusterRow, get_cluster_metadata, AgentRow, get_dashboard_agent_meta_data, EntryRow,
  workload_entry,
}

-- `selectedData`: `[{}]` at first.
pub data Selected : Type 0 where
  nothing : Selected
  cluster_row : ClusterRow → Selected
  agent_row : AgentRow → Selected
  entry_row : EntryRow → Selected

pub record DetailProps : Type 0 where
  pub to_date : ℕ → Text
  pub now : ℕ
  pub global_clusters_list : List Cluster
  pub global_agents_list : List Agent
  pub global_entries_list : List Entry
  pub global_agents_work_load_attestor_info : Option (List AttestorInfo)

-- The three loops: every match assigns the selected data anew.
unfoldable pub select {ℓ} :
    {A : Type ℓ} → (A → Text) → (A → Selected) → Text → List A → Selected → Selected
unfolding ◌===◌
select key row id [] selected = selected
select key row id (x ∷ xs) selected =
    select key row id xs (if key x === id then row x else selected)

abbrev pub row_of_cluster : DetailProps → Cluster → Selected
row_of_cluster props c =
    cluster_row (get_cluster_metadata c props.global_entries_list props.global_agents_list)

abbrev pub row_of_agent : DetailProps → Agent → Selected
row_of_agent props a = agent_row (
    get_dashboard_agent_meta_data props.now a props.global_entries_list
      props.global_agents_work_load_attestor_info)

abbrev pub row_of_entry : DetailProps → Entry → Selected
row_of_entry props e = entry_row (
    workload_entry props.to_date props.now e props.global_agents_work_load_attestor_info
      props.global_agents_list props.global_entries_list)

unfoldable pub details_data_parse : Text → Text → DetailProps → Selected
unfolding ◌===◌ select get_agent_spiffeid get_cluster_metadata get_dashboard_agent_meta_data
    workload_entry
details_data_parse entity id props =
    if entity === codes "clusters"
    then select (λ (c : Cluster). c.name) (row_of_cluster props) id props.global_clusters_list
        nothing
    else if entity === codes "agents"
    then select (λ a. get_agent_spiffeid (some a)) (row_of_agent props) id props.global_agents_list
        nothing
    else if entity === codes "entries"
    then select (λ (e : Entry). e.id) (row_of_entry props) id props.global_entries_list nothing
    else nothing
