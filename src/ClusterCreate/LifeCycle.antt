-- ===== src/ClusterCreate/LifeCycle.antt =====
-- What the form asks for when it is mounted and when the server changes, and that these events make only
-- steps of its machine.
use tornjak.Prelude.{◌≡◌, arith, Bool, true, false, not, ◌&&◌, ◌||◌, List, [], ◌∷◌, if◌then◌else◌}
use tornjak.Js.{Text, codes, ◌===◌}
use tornjak.Config.{Env, is_manager}
use tornjak.ClusterCreate.Form.{State}
use tornjak.ClusterCreate.Machine.{Reach, next, select_server}

-- `set_cluster_types` is the call of `clusterTypeInfoFunc`.
pub data Asked : Type 0 where
  set_cluster_types : Asked
  populate_agents_update populate_tornjak_server_info : Text → Asked
  populate_local_agents_update populate_local_tornjak_server_info populate_server_info : Asked

unfoldable pub component_did_mount : Env → Text → Text → State → List Asked × State
unfolding is_manager ◌===◌
component_did_mount env server message s =
    if is_manager env
    then if not (server === []) && (message === codes "OK" || message === [])
      then (
        set_cluster_types
            ∷ populate_agents_update server
            ∷ populate_tornjak_server_info server
            ∷ [],
        record s { selected_server = server },
      )
      else (set_cluster_types ∷ [], s)
    else (
      set_cluster_types ∷ populate_local_agents_update ∷ populate_local_tornjak_server_info
          ∷ populate_server_info ∷ [],
      s,
    )

unfoldable pub component_did_update : Env → Bool → Text → State → State
unfolding is_manager
component_did_update env server_changed server s =
    if is_manager env && server_changed then record s { selected_server = server } else s

selected-Reach :
    {env : Env} {types : List Text} (b : Bool) (server : Text) {s : State}
    → Reach env types s
    → Reach env types (if b then record s { selected_server = server } else s)
selected-Reach true server {s} r = next {s = s} r (select_server server)
selected-Reach false server r = r

mounted :
    (env : Env) (server message : Text) (s : State)
    → (component_did_mount env server message s).1 ≡ (
        if is_manager env && (not (server === []) && (message === codes "OK" || message === []))
        then record s { selected_server = server }
        else s)
unfolding component_did_mount
mounted env server message s = ground arith

-- Mounting and every update lead from states that the machine of the form reaches to such states.
pub cluster_create_life_cycle-Reach :
    (env : Env) (types : List Text) (server_changed : Bool) (server message : Text) (s : State)
    → Reach env types s
    → Reach env types (component_did_mount env server message s).1
      × Reach env types (component_did_update env server_changed server s)
unfolding component_did_update
cluster_create_life_cycle-Reach env types server_changed server message s r = (
  rw (mounted env server message s) (selected-Reach _ server r),
  selected-Reach (is_manager env && server_changed) server r,
)
