-- ===== src/Api/Tests.antt =====
-- Instances of the theorems on requests.
use mathlib.Core.List.{Memᴰ}
use tornjak.Prelude.{◌≡◌, ◌↔◌, ◌++◌, List, [], ◌∷◌, false, none, some}
use tornjak.Js.{Text, codes, includes}
use tornjak.Types.{Cluster, Entry, Server}
use tornjak.Config.{Env}
use tornjak.Store.Actions.{
  Failure, agents_list, entries_list, federations_list, clusters_list, servers_list,
}
use tornjak.Store.Reducers.{initial_state}
use tornjak.Store.Registers.{read}
use tornjak.Api.Calls.{Reply, resolved, rejected}
use tornjak.Api.Local.{
  populate_local_agents_update, populate_local_entries_update, populate_local_federations_update,
}
use tornjak.Api.Manager.{populate_agents_update, populate_entries_update}
use tornjak.Api.Delete.{undefined, local_entry_delete, entry_delete, cluster_delete, server_delete}
use tornjak.Api.Laws.{after, Fills, populate-Fills}
use tornjak.Api.DeleteLaws.{deleted, answer, local_entry_delete_lem, manager_delete_keeps}

abbrev env : Env
env = record {
  api_server_uri = none;
  tornjak_manager = none;
  api_version = codes "v1";
  auth_server_uri = none;
  urljoin = λ a b. a ++ b;
}

abbrev lost : Failure
lost = record {
  message = codes "Network Error";
  shown = codes "AxiosError: Network Error";
  response_data = none;
}

abbrev named : Text → Cluster
named name = record {
  name = name;
  edited_name = [];
  creation_time = [];
  domain_name = [];
  managed_by = [];
  platform_type = [];
  agents_list = [];
}

abbrev two_clusters : List Cluster
two_clusters = named (codes "a") ∷ named (codes "b") ∷ []

abbrev server : Server
server = record { name = codes "s"; address = []; mtls = []; tls = [] }

populate-Fills_example :
    Fills agents_list [] initial_state
      (after (populate_local_agents_update env) (rejected lost) initial_state)
    × Fills agents_list [] initial_state
        (after (populate_agents_update env (codes "s")) (rejected lost) initial_state)
    × Fills entries_list [] initial_state
        (after (populate_local_entries_update env) (resolved 200 (codes "OK") none) initial_state)
    × Fills entries_list [] initial_state (
        after
          (populate_entries_update env (codes "s"))
          (resolved 200 (codes "OK") none)
          initial_state)
    × Fills federations_list [] initial_state
        (after (populate_local_federations_update env) (rejected lost) initial_state)
populate-Fills_example =
    populate-Fills env (codes "s") initial_state (rejected lost) (resolved 200 (codes "OK") none)
      (rejected lost)

abbrev entry : Entry
entry = record {
  id = codes "1";
  spiffe_id = record { trust_domain = none; path = none };
  parent_id = record { trust_domain = none; path = none };
  selectors = none;
  jwt_svid_ttl = 0;
  x509_svid_ttl = 0;
  federates_with = [];
  admin = none;
  downstream = false;
  expires_at = none;
  dns_names = [];
  revision_number = 0;
  store_svid = false;
}

local_entry_delete_lem_example :
    Memᴰ entry (
      read entries_list (
        deleted
          (local_entry_delete env (codes "1" ∷ []) (entry ∷ []))
          (resolved 200 (codes "OK") (codes "SUCCESS"))
          initial_state))
    ↔ (Memᴰ entry (entry ∷ []) × (includes (codes "1" ∷ []) entry.id ≡ false))
local_entry_delete_lem_example =
    local_entry_delete_lem env (codes "1" ∷ []) (entry ∷ []) initial_state 200 (codes "OK")
      (codes "SUCCESS") entry

manager_delete_keeps_example :
    let r : Reply Text = resolved 200 (codes "OK") (codes "SUCCESS") in
    (read clusters_list
        (deleted (cluster_delete env (codes "s") (codes "a") 0 two_clusters) r initial_state)
      ≡ some two_clusters)
    × (read entries_list
          (deleted (entry_delete env (codes "s") (codes "1" ∷ []) 0 (entry ∷ [])) r initial_state)
        ≡ entry ∷ [])
    × (read servers_list (deleted (server_delete env (codes "a") 0 (server ∷ [])) r initial_state)
        ≡ server ∷ [])
    × (answer (cluster_delete env (codes "s") (codes "a") 0 two_clusters) r ≡ undefined)
    × (answer (entry_delete env (codes "s") (codes "1" ∷ []) 0 (entry ∷ [])) r ≡ undefined)
    × (answer (server_delete env (codes "a") 0 (server ∷ [])) r ≡ undefined)
manager_delete_keeps_example =
    manager_delete_keeps env (codes "s") (codes "a") (codes "1" ∷ []) 0 two_clusters (entry ∷ [])
      (server ∷ []) initial_state 200 (codes "OK") (codes "SUCCESS")
