-- ===== src/ClusterCreate/Form.antt =====
-- The state of the form, the handlers of its fields and `onSubmit`. `JSON.stringify` enters as the
-- text that it gives.
use tornjak.Prelude.{
  Bool, true, false, not, ◌&&◌, ◌||◌, Option, none, some, List, [], ◌∷◌, ◌++◌, length, ◌==◌,
  if◌then◌else◌,
}
use tornjak.Js.{Text, codes, ◌===◌, join}
use tornjak.Config.{Env, is_manager, get_api_server_uri, api_endpoint, tornjak_clusters_api}

pub record State : Type 0 where
  pub cluster_name : Text
  pub cluster_type : Text
  pub cluster_domain_name : Text
  pub cluster_managed_by : Text
  pub cluster_agents_list : List Text
  pub cluster_type_list : List Text
  pub cluster_type_manual_entry_option : Text
  pub cluster_type_manual_entry : Bool
  pub message : Text
  pub status_ok : Text
  pub selected_server : Text
  pub agents_list_display : Text
  pub assigned_agents_list_display : Text

abbrev pub type_option : Text
type_option = codes "----Select this option and Enter Custom Cluster Type Below----"

unfoldable pub initial : List Text → State
initial types = record {
  cluster_name = [];
  cluster_type = [];
  cluster_domain_name = [];
  cluster_managed_by = [];
  cluster_agents_list = [];
  cluster_type_list = types;
  cluster_type_manual_entry_option = type_option;
  cluster_type_manual_entry = false;
  message = [];
  status_ok = [];
  selected_server = [];
  agents_list_display = codes "Select Agents";
  assigned_agents_list_display = [];
}

abbrev display_or_hint : Text → Text
display_or_hint [] = codes "Select Agents"
display_or_hint (c ∷ s) = c ∷ s

unfoldable pub on_change_agents_list : Option (List Text) → State → State
unfolding join
on_change_agents_list none s = s
on_change_agents_list (some labels) s = record s {
  cluster_agents_list = labels;
  agents_list_display = display_or_hint (join labels (b',' ∷ []));
  assigned_agents_list_display = join labels (10 ∷ []);
}

unfoldable pub on_change_cluster_name : Option Text → State → State
on_change_cluster_name none s = s
on_change_cluster_name (some sid) s = record s { cluster_name = sid }

unfoldable pub on_change_cluster_type : Option Text → State → State
unfolding ◌===◌
on_change_cluster_type none s = s
on_change_cluster_type (some sid) s =
    if sid === s.cluster_type_manual_entry_option
    then record s { cluster_type_manual_entry = true; cluster_type = sid }
    else record s { cluster_type = sid; cluster_type_manual_entry = false }

unfoldable pub on_change_manual_cluster_type : Option Text → State → State
on_change_manual_cluster_type none s = s
on_change_manual_cluster_type (some sid) s = record s { cluster_type = sid }

unfoldable pub on_change_cluster_domain_name : Option Text → State → State
on_change_cluster_domain_name none s = s
on_change_cluster_domain_name (some sid) s = record s { cluster_domain_name = sid }

unfoldable pub on_change_cluster_managed_by : Option Text → State → State
on_change_cluster_managed_by none s = s
on_change_cluster_managed_by (some sid) s = record s { cluster_managed_by = sid }

-- The address, with the state after the question for it.
unfoldable pub get_api_cluster_create_endpoint : Env → State → State × Text
unfolding is_manager get_api_server_uri api_endpoint ◌===◌
get_api_cluster_create_endpoint env s =
    if not (is_manager env)
    then (s, get_api_server_uri env (api_endpoint env tornjak_clusters_api))
    else if not (s.selected_server === [])
    then (
      s,
      get_api_server_uri env (codes "/manager-api/tornjak/clusters/create")
          ++ (codes "/" ++ s.selected_server),
    )
    else (record s { message = codes "Error: No server selected" }, [])

-- `cjtData.cluster`
pub record NewCluster : Type 0 where
  pub name : Text
  pub platform_type : Text
  pub domain_name : Text
  pub managed_by : Text
  pub agents_list : List Text

abbrev pub new_cluster : State → NewCluster
new_cluster s = record {
  name = s.cluster_name;
  platform_type = s.cluster_type;
  domain_name = s.cluster_domain_name;
  managed_by = s.cluster_managed_by;
  agents_list = s.cluster_agents_list;
}

-- What pressing the button does at once: the next state, the messages and the request.
pub record Submitted : Type 0 where
  pub state : State
  pub toasts : List Text
  pub request : Option (Text × NewCluster)

abbrev pub post_to : State × Text → NewCluster → Submitted
post_to (s, []) c = record { state = s; toasts = []; request = none }
post_to (s, x ∷ uri) c = record { state = s; toasts = []; request = some (x ∷ uri, c) }

abbrev pub refused : Text → State → Submitted
refused caption s = record { state = s; toasts = caption ∷ []; request = none }

unfoldable pub on_submit : Env → State → Submitted
unfolding ◌===◌ get_api_cluster_create_endpoint
on_submit env s =
    if length s.cluster_name == 0
    then refused (codes "The cluster name cannot be empty.") s
    else if (s.cluster_type_manual_entry && s.cluster_type === s.cluster_type_manual_entry_option)
        || length s.cluster_type == 0
    then refused (codes "The cluster type cannot be empty.") s
    else post_to (get_api_cluster_create_endpoint env s) (new_cluster s)

unfoldable pub on_submit_answer : Text → Text → State → State
on_submit_answer request answer s = record s {
  message = codes "Request:" ++ (request ++ (codes "\n\nSuccess:" ++ answer));
  status_ok = codes "OK";
}
