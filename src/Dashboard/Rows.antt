-- ===== src/Dashboard/Rows.antt =====
-- The rows of the dashboard: `numberEntriesOfCluster`, `getClusterMetadata`,
-- `getDashboardAgentMetaData` and `workloadEntry`. The current time in milliseconds and the
-- printing of a date (`toLocaleDateString`) are arguments.
use tornjak.Prelude.{
  ℕ, ◌+◌, ◌/◌, Bool, false, Option, none, some, List, [], ◌∷◌, map, filter, find, length, leb,
  if◌then◌else◌,
}
use tornjak.Js.{Text, codes, ◌===◌, includes}
use tornjak.Types.{Agent, AttestorInfo, Cluster, Entry}
use tornjak.Spiffe.Ids.{get_agent_spiffeid, get_entry_spiffeid, get_entry_parentid}
use tornjak.Spiffe.Association.{get_canonical_agent_spiffeid}
use tornjak.Spiffe.Count.{number_entries_of_agent}
use tornjak.Spiffe.Status.{
  get_agent_status_string, get_agent_metadata, get_entry_admin_flag, get_entry_expiry_milliseconds,
}

-- The sum of `reduce`.
unfoldable pub sum_of : ℕ → List ℕ → ℕ
sum_of acc [] = acc
sum_of acc (n ∷ ns) = sum_of (acc + n) ns

unfoldable pub number_entries_of_cluster : Cluster → List Entry → List Agent → ℕ
unfolding ◌===◌ get_agent_spiffeid number_entries_of_agent sum_of
number_entries_of_cluster cluster entries agents =
    let members = filter (λ a. includes cluster.agents_list (get_agent_spiffeid (some a))) agents in
    sum_of 0 (map (λ a. number_entries_of_agent a entries) members)

pub record ClusterRow : Type 0 where
  pub id : Text
  pub name : Text
  pub created : Text
  pub num_nodes : ℕ
  pub num_entries : ℕ

unfoldable pub get_cluster_metadata : Cluster → List Entry → List Agent → ClusterRow
unfolding number_entries_of_cluster
get_cluster_metadata cluster entries agents = record {
  id = cluster.name;
  name = cluster.name;
  created = cluster.creation_time;
  num_nodes = length cluster.agents_list;
  num_entries = number_entries_of_cluster cluster entries agents;
}

-- A text, or "None" for an empty one.
abbrev pub or_none : Text → Text
or_none [] = codes "None"
or_none (c ∷ s) = c ∷ s

pub record AgentRow : Type 0 where
  pub id : Text
  pub spiffeid : Text
  pub num_entries : ℕ
  pub status : Text
  pub platform_type : Text
  pub cluster_name : Text

unfoldable pub get_dashboard_agent_meta_data :
    ℕ → Agent → List Entry → Option (List AttestorInfo) → AgentRow
unfolding get_agent_spiffeid number_entries_of_agent get_agent_status_string get_agent_metadata
get_dashboard_agent_meta_data now agent entries infos =
    let this_spiffeid = get_agent_spiffeid (some agent) in
    let metadata = get_agent_metadata this_spiffeid infos in
    record {
      id = this_spiffeid;
      spiffeid = this_spiffeid;
      num_entries = number_entries_of_agent agent entries;
      status = get_agent_status_string now (some agent);
      platform_type = or_none metadata.plugin;
      cluster_name = or_none metadata.cluster;
    }

pub record EntryRow : Type 0 where
  pub id : Text
  pub spiffeid : Text
  pub parent_id : Text
  pub admin_flag : Bool
  pub entry_expire_time : Text
  pub expiry_status : Text
  pub platform_type : Text
  pub cluster_name : Text
  pub canonical_agent_id : Text

-- The canonical agent of the entry that the parent names, if there is one.
abbrev pub canonical_of_parent : Text → List Agent → Option Entry → Text
canonical_of_parent parent agents none = parent
canonical_of_parent parent agents (some e) = get_canonical_agent_spiffeid e agents

-- `canonicalParentId`
unfoldable pub canonical_parent_id : Text → List Agent → List Entry → Text
unfolding get_agent_spiffeid get_entry_spiffeid get_canonical_agent_spiffeid ◌===◌
canonical_parent_id parent agents entries =
    elim (find (λ a. get_agent_spiffeid (some a) === parent) agents) [
      | none ↦
          canonical_of_parent parent agents
            (find (λ e. get_entry_spiffeid (some e) === parent) entries)
      | some a ↦ parent
    ]

abbrev pub printed : (ℕ → Text) → Option ℕ → Text
printed to_date none = codes "No Expiry Time"
printed to_date (some milliseconds) = to_date milliseconds

-- A comparison with `undefined` is false.
abbrev pub at_most : Option ℕ → ℕ → Bool
at_most none n = false
at_most (some m) n = leb m n

unfoldable pub workload_entry :
    (ℕ → Text) → ℕ → Entry → Option (List AttestorInfo) → List Agent → List Entry → EntryRow
unfolding get_entry_spiffeid get_entry_parentid canonical_parent_id get_agent_metadata
    get_entry_admin_flag get_entry_expiry_milliseconds
workload_entry to_date now entry infos agents entries =
    let this_parent_id = get_entry_parentid (some entry) in
    let canonical = canonical_parent_id this_parent_id agents entries in
    let metadata = get_agent_metadata canonical infos in
    record {
      id = entry.id;
      spiffeid = get_entry_spiffeid (some entry);
      parent_id = this_parent_id;
      admin_flag = get_entry_admin_flag (some entry);
      entry_expire_time = printed to_date (get_entry_expiry_milliseconds (some entry));
      expiry_status =
          if at_most entry.expires_at (now / 1000) then codes "Expired" else codes "Active";
      platform_type = or_none metadata.plugin;
      cluster_name = or_none metadata.cluster;
      canonical_agent_id = canonical;
    }
