-- ===== src/Api/Manager.antt =====
-- The requests in manager mode, to the server of the given name.
use tornjak.Prelude.{Option, none, some, List, [], ◌∷◌, ◌++◌}
use tornjak.Js.{Text, codes}
use tornjak.Types.{Agent, AttestorInfo, Cluster, Entry, TornjakServerInfo}
use tornjak.Config.{Env, get_api_server_uri}
use tornjak.Store.Actions.{
  text, agents_workloadattestor_info, message, tornjak_server_info, entries_list, agents_list,
  clusters_list,
}
use tornjak.Store.Reducers.{empty_info}
use tornjak.Api.Calls.{
  resolved, rejected, get, post, nothing, input, wload_attdata, dispatch, toast, refresh, Call,
  or_empty,
}

-- "Error retrieving " + serverName + " : " + …
abbrev retrieving : Text → Text → Text
retrieving server_name what = codes "Error retrieving " ++ (server_name ++ (codes " : " ++ what))

unfoldable pub populate_clusters_update : Env → Text → Call (Option (List Cluster))
populate_clusters_update env server_name = record {
  before = [];
  method = get;
  uri = get_api_server_uri env (codes "/manager-api/tornjak/clusters/list/") ++ server_name;
  body = nothing;
  handle = elim [
    | resolved status status_text clusters ↦
        dispatch clusters_list clusters ∷ dispatch message (text status_text) ∷ []
    | rejected error ↦
        toast (codes "Could not populate clusters.")
        ∷ dispatch clusters_list (some [])
        ∷ dispatch message (text (retrieving server_name error.message))
        ∷ []
  ];
}

unfoldable pub populate_agents_update : Env → Text → Call (Option (List Agent))
populate_agents_update env server_name = record {
  before = [];
  method = get;
  uri = get_api_server_uri env (codes "/manager-api/agent/list/") ++ server_name;
  body = nothing;
  handle = elim [
    | resolved status status_text agents ↦
        dispatch agents_list (or_empty agents) ∷ dispatch message (text status_text) ∷ []
    | rejected error ↦
        toast (codes "Could not populate agents.")
        ∷ dispatch agents_list []
        ∷ dispatch message (text (retrieving server_name error.message))
        ∷ []
  ];
}

-- `typeof error.response !== "undefined" ? ":" + error.response.data : ""`
abbrev response_suffix : Option Text → Text
response_suffix none = []
response_suffix (some d) = codes ":" ++ d

unfoldable pub populate_entries_update : Env → Text → Call (Option (List Entry))
populate_entries_update env server_name = record {
  before = [];
  method = get;
  uri = get_api_server_uri env (codes "/manager-api/entry/list/") ++ server_name;
  body = nothing;
  handle = elim [
    | resolved status status_text entries ↦
        dispatch entries_list (or_empty entries) ∷ dispatch message (text status_text) ∷ []
    | rejected error ↦
        dispatch entries_list []
        ∷ dispatch message
            (text (retrieving server_name (error.shown ++ response_suffix error.response_data)))
        ∷ toast (codes "Could not populate entries.")
        ∷ []
  ];
}

unfoldable pub populate_tornjak_server_info : Env → Text → Call TornjakServerInfo
populate_tornjak_server_info env server_name = record {
  before = [];
  method = get;
  uri = get_api_server_uri env (codes "/manager-api/tornjak/serverinfo/") ++ server_name;
  body = nothing;
  handle = elim [
    | resolved status status_text info ↦
        dispatch tornjak_server_info info ∷ dispatch message (text status_text) ∷ []
    | rejected error ↦
        toast (codes "Could not populate tornjak server info.")
        ∷ dispatch tornjak_server_info empty_info
        ∷ []
  ];
}

unfoldable pub populate_tornjak_agent_info : Env → Text → Text → Call (Option (List AttestorInfo))
populate_tornjak_agent_info env server_name input_data = record {
  before = [];
  method = post;
  uri = get_api_server_uri env (codes "/manager-api/tornjak/agents/list/") ++ server_name;
  body = input input_data;
  handle = elim [
    | resolved status status_text agents ↦ dispatch agents_workloadattestor_info agents ∷ []
    | rejected error ↦ toast (codes "Could not populate tornjak agent info.") ∷ []
  ];
}

unfoldable pub refresh_selectors_state : Env → Text → Call (Option (List AttestorInfo))
refresh_selectors_state env server_name = record {
  before = [];
  method = get;
  uri = get_api_server_uri env (codes "/manager-api/tornjak/selectors/list/") ++ server_name;
  body = nothing;
  handle = elim [
    | resolved status status_text agents ↦ dispatch agents_workloadattestor_info agents ∷ []
    | rejected error ↦ toast (codes "Could not refresh selector state.") ∷ []
  ];
}

unfoldable pub register_selectors : Env → Text → Text → Text → Call (Unit {0})
register_selectors env server_name spiffeid plugin = record {
  before = [];
  method = post;
  uri = get_api_server_uri env (codes "/manager-api/tornjak/selectors/register/") ++ server_name;
  body = wload_attdata spiffeid plugin;
  handle = elim [
    | resolved status status_text data_ ↦ refresh server_name ∷ []
    | rejected error ↦ toast (codes "Could not register selectors.") ∷ []
  ];
}
