-- ===== src/Api/Local.antt =====
-- The requests in local mode, and `populateServerInfo`.
use tornjak.Prelude.{ℕ, true, false, Option, none, some, List, [], ◌∷◌, ◌++◌, if◌then◌else◌, ◌==◌}
use tornjak.Js.{Text, codes}
use tornjak.Types.{
  Agent, AttestorInfo, Cluster, Entry, Federation, TornjakServerInfo, DebugServerInfo,
}
use tornjak.Config.{
  Env, get_api_server_uri, api_endpoint, spire_health_check_api, tornjak_selectors_api,
  tornjak_agents_api, spire_server_info_api, tornjak_server_info_api, spire_entries_api,
  spire_agents_api, spire_federations_api, tornjak_clusters_api,
}
use tornjak.Store.Actions.{
  text, failure, spire_health_checking, spire_health_check, agents_workloadattestor_info,
  debug_server_info, message, tornjak_server_info, server_info, entries_list, agents_list,
  federations_list, clusters_list,
}
use tornjak.Api.Calls.{
  resolved, rejected, get, post, nothing, input, wload_attdata, Effect, dispatch, toast,
  refresh_local, Call, or_empty,
}

-- The answer's data are the number `status`.
unfoldable pub spire_health_check_call : Env → Call ℕ
spire_health_check_call env = record {
  before = dispatch spire_health_checking false ∷ [];
  method = get;
  uri = get_api_server_uri env (api_endpoint env spire_health_check_api);
  body = nothing;
  handle = elim [
    | resolved status status_text health ↦
        dispatch spire_health_check (health == 1) ∷ dispatch spire_health_checking true ∷ []
    | rejected error ↦
        dispatch spire_health_checking true
        ∷ dispatch spire_health_check false
        ∷ toast (codes "Could not register SPIRE healthcheck.")
        ∷ []
  ];
}

unfoldable pub register_local_selectors : Env → Text → Text → Call (Unit {0})
register_local_selectors env spiffeid plugin = record {
  before = [];
  method = post;
  uri = get_api_server_uri env (api_endpoint env tornjak_selectors_api);
  body = wload_attdata spiffeid plugin;
  handle = elim [
    | resolved status status_text data_ ↦ refresh_local ∷ []
    | rejected error ↦ toast (codes "Could not register local selectors.") ∷ []
  ];
}

unfoldable pub refresh_local_selectors_state : Env → Call (Option (List AttestorInfo))
refresh_local_selectors_state env = record {
  before = [];
  method = get;
  uri = get_api_server_uri env (api_endpoint env tornjak_selectors_api);
  body = nothing;
  handle = elim [
    | resolved status status_text agents ↦ dispatch agents_workloadattestor_info agents ∷ []
    | rejected error ↦ toast (codes "Could not refresh local selector states.") ∷ []
  ];
}

unfoldable pub populate_local_tornjak_agent_info : Env → Text → Call (Option (List AttestorInfo))
populate_local_tornjak_agent_info env input_data = record {
  before = [];
  method = get;
  uri = get_api_server_uri env (api_endpoint env tornjak_agents_api);
  body = input input_data;
  handle = elim [
    | resolved status status_text agents ↦ dispatch agents_workloadattestor_info agents ∷ []
    | rejected error ↦ toast (codes "Could not populate local tornjak agent info.") ∷ []
  ];
}

unfoldable pub populate_local_tornjak_debug_server_info : Env → Call DebugServerInfo
populate_local_tornjak_debug_server_info env = record {
  before = [];
  method = get;
  uri = get_api_server_uri env (api_endpoint env spire_server_info_api);
  body = nothing;
  handle = elim [
    | resolved status status_text info ↦
        dispatch debug_server_info info ∷ dispatch message (text status_text) ∷ []
    | rejected error ↦ toast (codes "Could not populate tornjak debug info.") ∷ []
  ];
}

unfoldable pub populate_local_tornjak_server_info : Env → Call TornjakServerInfo
populate_local_tornjak_server_info env = record {
  before = [];
  method = get;
  uri = get_api_server_uri env (api_endpoint env tornjak_server_info_api);
  body = nothing;
  handle = elim [
    | resolved status status_text info ↦
        if status == 200
        then dispatch tornjak_server_info info ∷ dispatch message (text status_text) ∷ []
        else dispatch message (text status_text) ∷ []
    | rejected error ↦
        toast (codes "Could not populate local tornjak server info.")
        ∷ dispatch message (failure error)
        ∷ []
  ];
}

-- What `populateServerInfo` may be given in place of the information: an object with no keys, or
-- one without plugins.
pub data Given : Type 0 where
  empty_object without_plugins : Given
  info : TornjakServerInfo → Given

abbrev first_attestor : Text → List Text → List Effect
first_attestor trust_domain [] = []
first_attestor trust_domain (att ∷ more) =
    dispatch server_info (record { trust_domain = trust_domain; node_attestor_plugin = att }) ∷ []

unfoldable pub populate_server_info : Option Given → List Effect
populate_server_info none = []
populate_server_info (some empty_object) = []
populate_server_info (some without_plugins) = []
populate_server_info (some (info i)) = first_attestor i.trust_domain i.plugins.node_attestor

unfoldable pub populate_local_entries_update : Env → Call (Option (List Entry))
populate_local_entries_update env = record {
  before = [];
  method = get;
  uri = get_api_server_uri env (api_endpoint env spire_entries_api);
  body = nothing;
  handle = elim [
    | resolved status status_text entries ↦
        dispatch entries_list (or_empty entries) ∷ dispatch message (text status_text) ∷ []
    | rejected error ↦
        toast (codes "Could not populate local entries.")
        ∷ dispatch entries_list []
        ∷ dispatch message (text error.message)
        ∷ []
  ];
}

unfoldable pub populate_local_agents_update : Env → Call (Option (List Agent))
populate_local_agents_update env = record {
  before = [];
  method = get;
  uri = get_api_server_uri env (api_endpoint env spire_agents_api);
  body = nothing;
  handle = elim [
    | resolved status status_text agents ↦
        dispatch agents_list (or_empty agents) ∷ dispatch message (text status_text) ∷ []
    | rejected error ↦
        toast (codes "Could not populate local agents.")
        ∷ dispatch agents_list []
        ∷ dispatch message (text (codes "Error retrieving: " ++ error.message))
        ∷ []
  ];
}

unfoldable pub populate_local_federations_update : Env → Call (Option (List Federation))
populate_local_federations_update env = record {
  before = [];
  method = get;
  uri = get_api_server_uri env (api_endpoint env spire_federations_api);
  body = nothing;
  handle = elim [
    | resolved status status_text federations ↦
        dispatch federations_list (or_empty federations) ∷ dispatch message (text status_text) ∷ []
    | rejected error ↦
        toast (codes "Could not populate local federations.")
        ∷ dispatch federations_list []
        ∷ dispatch message (text (codes "Error retrieving: " ++ error.message))
        ∷ []
  ];
}

unfoldable pub populate_local_clusters_update : Env → Call (Option (List Cluster))
populate_local_clusters_update env = record {
  before = [];
  method = get;
  uri = get_api_server_uri env (api_endpoint env tornjak_clusters_api);
  body = nothing;
  handle = elim [
    | resolved status status_text clusters ↦
        dispatch clusters_list clusters ∷ dispatch message (text status_text) ∷ []
    | rejected error ↦
        toast (codes "Could not populate local clusters.")
        ∷ dispatch clusters_list (some [])
        ∷ dispatch message (text (codes "Error retrieving: " ++ error.message))
        ∷ []
  ];
}
