-- ===== src/Dashboard/TableTests.antt =====
-- Tests of the tables and charts, and instances of their theorems.
use tornjak.Prelude.{◌≡◌, refl, false, none, some, Option, List, [], ◌∷◌, map}
use tornjak.Js.{Text, codes, ◌===◌}
use tornjak.Spiffe.Ids.{get_agent_spiffeid}
use tornjak.Types.{Agent, Entry, SpiffeId, Selector}
use tornjak.Dashboard.Rows.{ClusterRow, AgentRow, EntryRow}
use tornjak.Dashboard.Details.{entry_row}
use tornjak.Dashboard.Tables.{TableProps, agent_list, details_tables}
use tornjak.Dashboard.Charts.{Section, agent_sections}
use tornjak.Dashboard.TableLaws.{agent_sections-agent_list}

abbrev id_of : Text → SpiffeId
id_of path = record { trust_domain = some (codes "e.org"); path = some path }

abbrev unix : List Selector
unix = record { type = codes "unix"; value = codes "uid:1" } ∷ []

abbrev node_at : Text → Option (List Selector) → Agent
node_at path selectors = record {
  id = id_of path;
  attetstation_type = codes "x509pop";
  x509svid_serial_number = [];
  x509svid_expires_at = 100;
  selectors = selectors;
  banned = false;
}

abbrev agents : List Agent
agents = node_at (codes "/a") (some unix) ∷ node_at (codes "/b") none ∷ []

abbrev entry_with : Text → Text → List Selector → Entry
entry_with path parent selectors = record {
  id = path;
  spiffe_id = id_of path;
  parent_id = id_of parent;
  selectors = some selectors;
  jwt_svid_ttl = 0;
  x509_svid_ttl = 0;
  federates_with = [];
  admin = none;
  downstream = false;
  expires_at = none;
  dns_names = [];
  revision_number = 0;
  store_svid = false;
}

abbrev entries : List Entry
entries =
    entry_with (codes "/pool") (codes "/spire/server") unix
    ∷ entry_with (codes "/w") (codes "/pool") []
    ∷ entry_with (codes "/x") (codes "/b") []
    ∷ []

abbrev props : TableProps
props = record {
  to_date = λ t. [];
  now = 0;
  clusters = none;
  agents = some agents;
  entries = some entries;
  infos = none;
}

-- One workload for each agent.
sections : map (λ (s : Section). s.value) (agent_sections (some agents) (some entries)) ≡ 1 ∷ 1 ∷ []
unfolding agent_sections
sections = refl

agent_sections-agent_list_example :
    agent_sections (some agents) (some entries)
    ≡ map
        (λ (r : AgentRow). record { group = r.id; value = r.num_entries })
        (agent_list props none none)
unfolding get_agent_spiffeid ◌===◌
agent_sections-agent_list_example =
    agent_sections-agent_list props agents entries refl refl (refl, refl, (refl, refl, tt))

abbrev edge : ClusterRow
edge = record {
  id = codes "edge";
  name = codes "edge";
  created = [];
  num_nodes = 0;
  num_entries = 0;
}

abbrev row : AgentRow
row = record {
  id = codes "spiffe://e.org/a";
  spiffeid = codes "spiffe://e.org/a";
  num_entries = 1;
  status = codes "Attested";
  platform_type = codes "None";
  cluster_name = codes "None";
}

abbrev workload : EntryRow
workload = record {
  id = codes "/w";
  spiffeid = codes "spiffe://e.org/w";
  parent_id = codes "spiffe://e.org/pool";
  admin_flag = false;
  entry_expire_time = [];
  expiry_status = [];
  platform_type = [];
  cluster_name = [];
  canonical_agent_id = codes "spiffe://e.org/a";
}

-- The page of a workload below a node's entry lists no agent.
no_agent : (details_tables props (entry_row workload)).agents ≡ some []
unfolding details_tables
no_agent = refl
