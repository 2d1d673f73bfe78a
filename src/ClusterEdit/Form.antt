-- ===== src/ClusterEdit/Form.antt =====
-- The state of the form, its handlers, the deletion and `onSubmit`. `JSON.stringify` enters as the text
-- that it gives.
use tornjak.Prelude.{
  Bool, true, false, not, ◌&&◌, Option, none, some, List, [], ◌∷◌, ◌++◌, map, length, ◌==◌,
  if◌then◌else◌, ℕ,
}
use tornjak.Js.{Text, codes, ◌===◌, join}
use tornjak.Types.{Cluster}
use tornjak.Config.{Env, is_manager, get_api_server_uri, api_endpoint, tornjak_clusters_api}
use tornjak.Api.Delete.{
  DeleteCall, Returned, body, error, undefined, local_cluster_delete, cluster_delete,
}

pub record State : Type 0 where
  pub original_cluster_name : Text
  pub cluster_name : Text
  pub cluster_type : Text
  pub cluster_domain_name : Text
  pub cluster_managed_by : Text
  pub cluster_agents_list : List Text
  pub cluster_name_list : List Text
  pub cluster_type_manual_entry_option : Text
  pub cluster_type_manual_entry : Bool
  pub message : Text
  pub status_ok : Text
  pub selected_server : Text
  pub agents_list_display : Text
  pub agents_list_selected : List Text
  pub assigned_agents_list_display : Text

abbrev pub type_option : Text
type_option = codes "----Select this option and Enter Custom Cluster Type Below----"

abbrev pub initial : State
initial = record {
  original_cluster_name = [];
  cluster_name = [];
  cluster_type = [];
  cluster_domain_name = [];
  cluster_managed_by = [];
  cluster_agents_list = [];
  cluster_name_list = [];
  cluster_type_manual_entry_option = type_option;
  cluster_type_manual_entry = false;
  message = [];
  status_ok = [];
  selected_server = [];
  agents_list_display = codes "Select Agents";
  agents_list_selected = [];
  assigned_agents_list_display = [];
}

-- `has_debug_info` says whether the server's debug information is there and has keys.
unfoldable pub prepare_cluster_name_list : Option (List Cluster) → Bool → State → State
prepare_cluster_name_list none has_debug_info s = s
prepare_cluster_name_list (some clusters) has_debug_info s =
    if has_debug_info
    then record s { cluster_name_list = map (λ (c : Cluster). c.name) clusters }
    else s

-- The loop that looks for the name: the last cluster with it wins.
abbrev pub last_named : Text → Option Cluster → List Cluster → Option Cluster
last_named sid found [] = found
last_named sid found (c ∷ cs) = last_named sid (if c.name === sid then some c else found) cs

abbrev pub shown_cluster : Option Cluster → State → State
shown_cluster none s = s
shown_cluster (some c) s = record s {
  original_cluster_name = c.name;
  cluster_name = c.name;
  cluster_type = c.platform_type;
  cluster_domain_name = c.domain_name;
  cluster_managed_by = c.managed_by;
  cluster_agents_list = c.agents_list;
  agents_list_display = join c.agents_list (b',' ∷ []);
  assigned_agents_list_display = join c.agents_list (10 ∷ []);
  agents_list_selected = c.agents_list;
}

unfoldable pub on_change_cluster_name_list : Option (List Cluster) → Option Text → State → State
unfolding ◌===◌ join
on_change_cluster_name_list clusters none s = s
on_change_cluster_name_list none (some sid) s = s
on_change_cluster_name_list (some clusters) (some sid) s =
    shown_cluster (last_named sid none clusters) s

unfoldable pub on_change_cluster_name : Option Text → State → State
on_change_cluster_name none s = s
on_change_cluster_name (some sid) s = record s { cluster_name = sid }

unfoldable pub on_change_cluster_type : Option Text → State → State
unfolding ◌===◌
on_change_cluster_type none s = s
on_change_cluster_type (some []) s = record s { cluster_type = [] }
on_change_cluster_type (some (c ∷ sid)) s =
    if (c ∷ sid) === s.cluster_type_manual_entry_option
    then record s { cluster_type_manual_entry = true; cluster_type = c ∷ sid }
    else record s { cluster_type_manual_entry = false; cluster_type = c ∷ sid }

unfoldable pub on_change_manual_cluster_type : Option Text → State → State
on_change_manual_cluster_type none s = s
on_change_manual_cluster_type (some sid) s = record s { cluster_type = sid }

unfoldable pub on_change_cluster_domain_name : Option Text → State → State
on_change_cluster_domain_name none s = s
on_change_cluster_domain_name (some sid) s = record s { cluster_domain_name = sid }

unfoldable pub on_change_cluster_managed_by : Option Text → State → State
on_change_cluster_managed_by none s = s
on_change_cluster_managed_by (some sid) s = record s { cluster_managed_by = sid }

abbrev display_or_hint : Text → Text
display_or_hint [] = codes "Select Agents"
display_or_hint (c ∷ s) = c ∷ s

unfoldable pub on_change_agents_list : Option (List Text) → State → State
unfolding join
on_change_agents_list none s = s
on_change_agents_list (some labels) s = record s {
  cluster_agents_list = labels;
  agents_list_display = display_or_hint (join labels (b',' ∷ []));
  assigned_agents_list_display = join labels (10 ∷ []);
  agents_list_selected = labels;
}

-- The address, with the state after the question for it.
unfoldable pub get_api_entry_create_endpoint : Env → State → State × Text
unfolding is_manager get_api_server_uri api_endpoint ◌===◌
get_api_entry_create_endpoint env s =
    if not (is_manager env)
    then (s, get_api_server_uri env (api_endpoint env tornjak_clusters_api))
    else if not (s.selected_server === [])
    then (
      s,
      get_api_server_uri env (codes "/manager-api/tornjak/clusters/edit")
          ++ (codes "/" ++ s.selected_server),
    )
    else (record s { message = codes "Error: No server selected" }, [])

-- `cjtData.cluster`
pub record EditedCluster : Type 0 where
  pub name : Text
  pub edited_name : Text
  pub platform_type : Text
  pub domain_name : Text
  pub managed_by : Text
  pub agents_list : List Text

abbrev pub edited_cluster : State → EditedCluster
edited_cluster s = record {
  name = s.original_cluster_name;
  edited_name = s.cluster_name;
  platform_type = s.cluster_type;
  domain_name = s.cluster_domain_name;
  managed_by = s.cluster_managed_by;
  agents_list = s.cluster_agents_list;
}

-- What pressing the button does at once: the next state, the messages and the request.
pub record Submitted : Type 0 where
  pub state : State
  pub toasts : List Text
  pub request : Option (Text × EditedCluster)

abbrev pub patch_to : State × Text → EditedCluster → Submitted
patch_to (s, []) c = record { state = s; toasts = []; request = none }
patch_to (s, x ∷ uri) c = record { state = s; toasts = []; request = some (x ∷ uri, c) }

abbrev pub refused : Text → State → Submitted
refused caption s = record { state = s; toasts = caption ∷ []; request = none }

unfoldable pub on_submit : Env → State → Submitted
unfolding ◌===◌ get_api_entry_create_endpoint
on_submit env s =
    if length s.original_cluster_name == 0
    then refused (codes "Please select an existing cluster.") s
    else if length s.cluster_name == 0
    then refused (codes "The new cluster name cannot be empty.") s
    else if s.cluster_type_manual_entry && s.cluster_type === s.cluster_type_manual_entry_option
    then refused (codes "The cluster type cannot be empty.") s
    else if length s.cluster_name == 0
    then refused (codes "The cluster name cannot be empty.") s
    else patch_to (get_api_entry_create_endpoint env s) (edited_cluster s)

unfoldable pub on_submit_answer : Text → Text → State → State
on_submit_answer request answer s = record s {
  message = codes "Request:" ++ (request ++ (codes "\n\nSuccess:" ++ answer));
  status_ok = codes "OK";
}

-- `deleteCluster`, up to the request: the messages, and the request if the user confirms. `server` is
-- the selected server of the store, and `input` the identity of the object that is sent.
pub data Deletion : Type 0 where
  no_cluster : Deletion
  not_confirmed : Deletion
  requested : DeleteCall → Deletion

unfoldable pub delete_cluster : Env → Text → ℕ → Bool → List Cluster → State → Deletion
unfolding is_manager local_cluster_delete cluster_delete
delete_cluster env server input confirmed clusters s =
    if length s.cluster_name == 0
    then no_cluster
    else if not confirmed
    then not_confirmed
    else if is_manager env
    then requested (cluster_delete env server s.cluster_name input clusters)
    else requested (local_cluster_delete env s.cluster_name clusters)

-- What the user is told: `result === "SUCCESS"`, where an error is no text.
pub data Told : Type 0 where
  deleted_successfully : Told
  error_deleting : Told

unfoldable pub told_after : Returned → Told
unfolding ◌===◌
told_after (body answer) =
    if answer === codes "SUCCESS" then deleted_successfully else error_deleting
told_after (error failure) = error_deleting
told_after undefined = error_deleting
