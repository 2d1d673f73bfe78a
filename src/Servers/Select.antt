-- ===== src/Servers/Select.antt =====
-- The choice of a server, and what a change of it asks for.
use tornjak.Prelude.{Bool, not, ◌&&◌, ◌||◌, Option, none, some, List, [], ◌∷◌, ◌++◌, if◌then◌else◌}
use tornjak.Js.{Text, codes, ◌===◌}
use tornjak.Types.{Server}
use tornjak.Config.{Env, is_manager}
use tornjak.Api.Calls.{Reply, resolved, rejected, Effect, toast, dispatch}
use tornjak.Store.Actions.{server_selected, servers_list}

-- The functions of the request class that the component calls.
pub data Asked : Type 0 where
  populate_servers populate_server_info : Asked
  populate_tornjak_server_info populate_agents_update : Text → Asked

-- `message === "OK" || message === ""`
abbrev pub is_fine : Text → Bool
is_fine message = message === codes "OK" || message === []

-- `has_debug_info` says whether the debug information of the server is there and has keys.
unfoldable pub component_did_mount : Env → Text → Text → Bool → List Asked
unfolding is_manager ◌===◌
component_did_mount env selected message has_debug_info =
    if is_manager env
    then populate_servers
      ∷ ((if not (selected === []) && is_fine message
            then populate_tornjak_server_info selected ∷ []
            else [])
          ++ (if has_debug_info && is_fine message
              then populate_server_info ∷ populate_agents_update selected ∷ []
              else []))
    else []

unfoldable pub component_did_update : Env → Text → Text → List Asked
unfolding is_manager ◌===◌
component_did_update env previous selected =
    if is_manager env
    then if not (previous === selected)
      then populate_tornjak_server_info selected
        ∷ populate_server_info
        ∷ populate_agents_update selected
        ∷ []
      else []
    else []

-- `populateServers`, after the answer.
unfoldable pub populate_servers_answer : Reply (List Server) → List Effect
populate_servers_answer (resolved status status_text servers) = dispatch servers_list servers ∷ []
populate_servers_answer (rejected failure) = toast (codes "Could not populate servers.") ∷ []

unfoldable pub on_server_select : Text → List Effect
on_server_select [] = []
on_server_select (c ∷ name) = dispatch server_selected (c ∷ name) ∷ []

-- `getServer`: the first server with the name, else `null`.
unfoldable pub get_server : Text → List Server → Option Server
unfolding ◌===◌
get_server server_name [] = none
get_server server_name (s ∷ servers) =
    if s.name === server_name then some s else get_server server_name servers
