-- ===== src/Tables/Others.antt =====
-- frontend/src/tables/clusters-list-table.tsx, federations-list-table.tsx and
-- servers-list-table.tsx. `show` stands for `JSON.stringify`.
use tornjak.Prelude.{ℕ, suc, ◌+◌, Option, none, some, List, [], ◌∷◌, if◌then◌else◌}
use tornjak.Js.{Text, codes, to_text}
use tornjak.Types.{Cluster, Federation, Server}
use tornjak.Config.{Env, is_manager}
use tornjak.Api.Delete.{DeleteCall, local_cluster_delete, cluster_delete, server_delete}

pub record ClusterRow : Type 0 where
  pub id : Text
  pub cluster_name : Text
  pub cluster_type : Text
  pub cluster_managed_by : Text
  pub cluster_domain_name : Text
  pub cluster_assigned_agents : Text

unfoldable pub cluster_rows : (List Text → Text) → ℕ → List Cluster → List ClusterRow
unfolding to_text
cluster_rows show i [] = []
cluster_rows show i (c ∷ cs) =
    record {
      id = to_text (i + 1);
      cluster_name = c.name;
      cluster_type = c.platform_type;
      cluster_managed_by = c.managed_by;
      cluster_domain_name = c.domain_name;
      cluster_assigned_agents = show c.agents_list;
    }
    ∷ cluster_rows show (suc i) cs

-- The requests of `deleteCluster`, one for each selected row, all with the same list; `cells[1]` is
-- the name, and `input` numbers the objects that are sent.
unfoldable pub delete_cluster : Env → Text → ℕ → List ClusterRow → List Cluster → List DeleteCall
unfolding is_manager local_cluster_delete cluster_delete
delete_cluster env server input [] clusters = []
delete_cluster env server input (r ∷ rows) clusters =
    (if is_manager env
      then cluster_delete env server r.cluster_name input clusters
      else local_cluster_delete env r.cluster_name clusters)
    ∷ delete_cluster env server (suc input) rows clusters

pub record FederationRow : Type 0 where
  pub id : Text
  pub federation_trust_domain : Text
  pub federation_bundle_url : Text
  pub federation_bundle_profile : Text
  pub info : Text

abbrev profile : Option Text → Text
profile none = codes "https_web"
profile (some s) = codes "https_spiffe"

unfoldable pub federation_rows : (Federation → Text) → ℕ → List Federation → List FederationRow
unfolding to_text
federation_rows show i [] = []
federation_rows show i (f ∷ fs) =
    record {
      id = to_text (i + 1);
      federation_trust_domain = f.trust_domain;
      federation_bundle_url = f.bundle_endpoint_url;
      federation_bundle_profile = profile f.bundle_endpoint_profile.https_spiffe;
      info = show f;
    }
    ∷ federation_rows show (suc i) fs

pub record ServerRow : Type 0 where
  pub id : Text
  pub server_name : Text
  pub server_address : Text
  pub tls : Text
  pub mtls : Text

-- A text, or "None" for an empty one.
abbrev or_none : Text → Text
or_none [] = codes "None"
or_none (c ∷ s) = c ∷ s

unfoldable pub server_rows : ℕ → List Server → List ServerRow
unfolding to_text
server_rows i [] = []
server_rows i (s ∷ ss) =
    record {
      id = to_text (i + 1);
      server_name = s.name;
      server_address = s.address;
      tls = or_none s.tls;
      mtls = or_none s.mtls;
    }
    ∷ server_rows (suc i) ss

abbrev server_calls : Env → ℕ → List ServerRow → List Server → List DeleteCall
server_calls env input [] servers = []
server_calls env input (r ∷ rows) servers =
    server_delete env r.server_name input servers ∷ server_calls env (suc input) rows servers

-- Servers are deleted in manager mode only.
unfoldable pub delete_server : Env → ℕ → List ServerRow → List Server → List DeleteCall
unfolding is_manager server_delete
delete_server env input rows servers =
    if is_manager env then server_calls env input rows servers else []
