-- ===== src/Config.antt =====
-- frontend/src/env.ts, components/helpers.ts, components/apiConfig.ts and components/is_manager.ts:
-- the settings of the build, and the addresses made from them. `urljoin` is the package url-join.
use tornjak.Prelude.{
  ℕ, ◌-◌, Bool, false, true, not, ◌&&◌, Option, none, some, [], ◌∷◌, ◌++◌, map, leb, ◌==◌,
  if◌then◌else◌,
}
use tornjak.Js.{Text, codes, ◌===◌}

pub record Env : Type 0 where
  pub api_server_uri : Option Text
  pub tornjak_manager : Option Text
  pub api_version : Text
  pub auth_server_uri : Option Text
  pub urljoin : Text → Text → Text

-- A text in a condition: missing and empty texts count as false.
abbrev pub truthy : Option Text → Bool
truthy none = false
truthy (some []) = false
truthy (some (c ∷ s)) = true

abbrev or_slash : Option Text → Text
or_slash none = codes "/"
or_slash (some []) = codes "/"
or_slash (some (c ∷ s)) = c ∷ s

unfoldable pub get_api_server_uri : Env → Text → Text
get_api_server_uri env uri = env.urljoin (or_slash env.api_server_uri) uri

-- `toUpperCase` on one code unit, with the two units outside ASCII whose upper case is an ASCII letter.
abbrev to_upper : ℕ → ℕ
to_upper c =
    if leb b'a' c && leb c b'z'
    then c - 32
    else if c == 0x17f
    then b'S'
    else if c == 0x131
    then b'I'
    else c

abbrev manager_setting : Option Text → Bool
manager_setting none = false
manager_setting (some s) = not (map to_upper s === codes "FALSE")

-- `IsManager`
unfoldable pub is_manager : Env → Bool
unfolding ◌===◌
is_manager env = manager_setting env.tornjak_manager

-- `apiEndpoints`
unfoldable pub api_base_url : Env → Text
api_base_url env = codes "/api/" ++ env.api_version

pub data Endpoint : Type 0 where
  spire_server_info_api spire_health_check_api spire_agents_api spire_agents_ban_api : Endpoint
  spire_join_token_api spire_entries_api spire_federations_api tornjak_server_info_api : Endpoint
  tornjak_selectors_api tornjak_agents_api tornjak_clusters_api : Endpoint

abbrev endpoint_path : Endpoint → Text
endpoint_path spire_server_info_api = codes "/spire/serverinfo"
endpoint_path spire_health_check_api = codes "/spire/healthcheck"
endpoint_path spire_agents_api = codes "/spire/agents"
endpoint_path spire_agents_ban_api = codes "/spire/agents/ban"
endpoint_path spire_join_token_api = codes "/spire/agents/jointoken"
endpoint_path spire_entries_api = codes "/spire/entries"
endpoint_path spire_federations_api = codes "/spire/federations"
endpoint_path tornjak_server_info_api = codes "/tornjak/serverinfo"
endpoint_path tornjak_selectors_api = codes "/tornjak/selectors"
endpoint_path tornjak_agents_api = codes "/tornjak/agents"
endpoint_path tornjak_clusters_api = codes "/tornjak/clusters"

unfoldable pub api_endpoint : Env → Endpoint → Text
unfolding api_base_url
api_endpoint env e = api_base_url env ++ endpoint_path e
