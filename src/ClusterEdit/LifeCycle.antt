-- ===== src/ClusterEdit/LifeCycle.antt =====
-- What the form asks for when it is mounted, when its properties change and after a request, and that
-- these events make only steps of its machine.
use tornjak.Prelude.{
  Bool, true, false, not, ◌&&◌, ◌||◌, Option, none, some, List, [], ◌∷◌, if◌then◌else◌,
}
use tornjak.Js.{Text, codes, ◌===◌}
use tornjak.Types.{Cluster}
use tornjak.Config.{Env, is_manager}
use tornjak.ClusterEdit.Form.{State, EditedCluster, prepare_cluster_name_list, on_submit}
use tornjak.ClusterEdit.Machine.{Reach, next, prepare, select_server}

pub data Asked : Type 0 where
  populate_clusters_update : Text → Asked
  populate_local_clusters_update : Asked

-- What the form reads of the store. `has_debug_info` says whether the server's debug information is
-- there and has keys.
pub record ClusterProps : Type 0 where
  pub global_server_selected : Text
  pub global_error_message : Text
  pub global_clusters_list : Option (List Cluster)
  pub has_debug_info : Bool

-- A server is selected and the last request was fine.
abbrev pub is_fine : ClusterProps → Bool
is_fine props =
    not (props.global_server_selected === [])
    && (props.global_error_message === codes "OK" || props.global_error_message === [])

unfoldable pub populate : Env → ClusterProps → List Asked
unfolding is_manager ◌===◌
populate env props =
    if is_manager env
    then if is_fine props then populate_clusters_update props.global_server_selected ∷ [] else []
    else populate_local_clusters_update ∷ []

unfoldable pub component_did_mount : Env → ClusterProps → State → List Asked × State
unfolding populate prepare_cluster_name_list
component_did_mount env props s =
    let first =
      if is_manager env && is_fine props
      then record s { selected_server = props.global_server_selected }
      else s in
    (
      populate env props,
      prepare_cluster_name_list props.global_clusters_list props.has_debug_info first,
    )

-- The two tests say whether the server, and whether one of the lists of clusters and agents, is another
-- one than before.
unfoldable pub component_did_update : Env → Bool → Bool → ClusterProps → State → State
unfolding is_manager prepare_cluster_name_list
component_did_update env server_changed lists_changed props s =
    let first =
      if is_manager env && server_changed
      then record s { selected_server = props.global_server_selected }
      else s in
    if lists_changed
    then prepare_cluster_name_list props.global_clusters_list props.has_debug_info first
    else first

abbrev asked_after : Env → ClusterProps → Option (Text × EditedCluster) → List Asked
asked_after env props none = []
asked_after env props (some sent) = populate env props

-- What `onSubmit` asks for behind its request, before the answer.
unfoldable pub on_submit_asks : Env → ClusterProps → State → List Asked
unfolding on_submit populate
on_submit_asks env props s = asked_after env props (on_submit env s).request

selected-Reach :
    {env : Env} {known : Text → Type 0} (b : Bool) (server : Text) {s : State}
    → Reach env known s
    → Reach env known (if b then record s { selected_server = server } else s)
selected-Reach true server {s} r = next {s = s} r (select_server server)
selected-Reach false server r = r

if-Reach :
    {env : Env} {known : Text → Type 0} (b : Bool) {s t : State}
    → Reach env known s
    → Reach env known t
    → Reach env known (if b then s else t)
if-Reach true r q = r
if-Reach false r q = q

-- Mounting and every update lead from states that the machine of the form reaches to such states.
pub cluster_edit_life_cycle-Reach :
    (env : Env) (known : Text → Type 0) (server_changed lists_changed : Bool) (props : ClusterProps)
    (s : State)
    → Reach env known s
    → Reach env known (component_did_mount env props s).1
      × Reach env known (component_did_update env server_changed lists_changed props s)
unfolding component_did_mount component_did_update
cluster_edit_life_cycle-Reach env known server_changed lists_changed props s r =
    let mounted = selected-Reach (is_manager env && is_fine props) props.global_server_selected r in
    let updated =
      selected-Reach (is_manager env && server_changed) props.global_server_selected r in
    (
      next mounted (prepare props.global_clusters_list props.has_debug_info),
      if-Reach lists_changed
          (next updated (prepare props.global_clusters_list props.has_debug_info)) updated,
    )
