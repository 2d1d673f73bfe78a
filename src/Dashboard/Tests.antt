-- ===== src/Dashboard/Tests.antt =====
-- Tests of the dashboard, and instances of its theorems.
use tornjak.Prelude.{◌≢◌, ℕ, ◌≡◌, refl, false, none, some, List, [], ◌∷◌}
use tornjak.Js.{Text, codes}
use tornjak.Types.{SpiffeId, Selector, Agent, Cluster, Entry}
use tornjak.EntryCreate.SelectorsList.{agent_of_parent}
use tornjak.Dashboard.Rows.{canonical_parent_id}
use tornjak.Dashboard.Details.{
  DetailProps, details_data_parse, row_of_cluster, row_of_agent, row_of_entry,
}
use tornjak.Dashboard.Link.{
  Browser, IsFaithful, details_link, link_to, details_data_parse-details_link,
}
use tornjak.Spiffe.Ids.{get_agent_spiffeid}
use tornjak.Dashboard.Laws.{agent_of_parent-canonical_parent_id}

abbrev id_of : Text → SpiffeId
id_of path = record { trust_domain = some (codes "e.org"); path = some path }

abbrev node : Agent
node = record {
  id = id_of (codes "/node");
  attetstation_type = codes "k8s_psat";
  x509svid_serial_number = [];
  x509svid_expires_at = 100;
  selectors = some (record { type = codes "k8s"; value = codes "ns:a" } ∷ []);
  banned = false;
}

abbrev entry_with : Text → Text → List Selector → Entry
entry_with path parent selectors = record {
  id = path;
  spiffe_id = id_of path;
  parent_id = id_of parent;
  selectors = some selectors;
  jwt_svid_ttl = 0;
  x509_svid_ttl = 0;
  federates_with = [];
  admin = none;
  downstream = false;
  expires_at = some 5;
  dns_names = [];
  revision_number = 0;
  store_svid = false;
}

abbrev pool : Entry
pool =
    entry_with (codes "/pool") (codes "/spire/server")
      (record { type = codes "k8s"; value = codes "ns:a" } ∷ [])

abbrev work : Entry
work = entry_with (codes "/work") (codes "/pool") []

abbrev entries : List Entry
entries = pool ∷ work ∷ []

abbrev edge : Cluster
edge = record {
  name = codes "edge";
  edited_name = [];
  creation_time = [];
  domain_name = [];
  managed_by = [];
  platform_type = codes "Kubernetes";
  agents_list = codes "spiffe://e.org/node" ∷ [];
}

abbrev pool_id : Text
pool_id = codes "spiffe://e.org/pool"

abbrev shown : ℕ → Text
shown t = codes "a date"

abbrev props : DetailProps
props = record {
  to_date = shown;
  now = 7000;
  global_clusters_list = edge ∷ [];
  global_agents_list = node ∷ [];
  global_entries_list = entries;
  global_agents_work_load_attestor_info = none;
}

-- The agent above an entry is the canonical one of its parent.
above : canonical_parent_id pool_id (node ∷ []) entries ≡ codes "spiffe://e.org/node"
unfolding canonical_parent_id
above = refl

agent_of_parent-canonical_parent_id_example :
    agent_of_parent pool_id (node ∷ []) entries ≡ codes "spiffe://e.org/node"
unfolding canonical_parent_id
agent_of_parent-canonical_parent_id_example =
    agent_of_parent-canonical_parent_id pool_id (node ∷ []) entries

-- A browser whose addresses need no encoding.
abbrev plain : Browser
plain = record { encode = λ s. s; decode = λ s. s; set_id = λ s. s; get_id = λ s. some s }

plain-IsFaithful : IsFaithful plain
plain-IsFaithful = record { decode-encode = λ s. refl; get-set = λ s. refl }

node-some : get_agent_spiffeid (some node) ≢ []
unfolding get_agent_spiffeid
node-some = λ e. cc

details_data_parse-details_link_example :
    (details_link plain (codes "edge") (codes "Clusters")
      ≡ link_to plain (codes "clusters") (codes "edge"))
    × (details_data_parse (codes "clusters") (codes "edge") props ≡ row_of_cluster props edge)
    × (details_link plain (get_agent_spiffeid (some node)) (codes "Agents")
        ≡ link_to plain (codes "agents") (get_agent_spiffeid (some node)))
    × (details_data_parse (codes "agents") (get_agent_spiffeid (some node)) props
        ≡ row_of_agent props node)
    × (details_link plain (codes "/work") (codes "Entries")
        ≡ link_to plain (codes "entries") (codes "/work"))
    × (details_data_parse (codes "entries") (codes "/work") props ≡ row_of_entry props work)
details_data_parse-details_link_example =
    details_data_parse-details_link plain props [] [] edge [] [] node (pool ∷ []) [] work
      plain-IsFaithful (λ e. cc, λ e. cc) (refl, tt) (refl, tt) (refl, tt) node-some
