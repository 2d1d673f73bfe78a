-- ===== src/Tables/Agents.antt =====
-- frontend/src/tables/agents-list-table.tsx. A selected row is the row that the component library
-- gives back, with its cells in the order of the table's headers; `show` stands for
-- `JSON.stringify`.
use tornjak.Prelude.{
  ℕ, suc, ◌+◌, Bool, true, false, not, ◌||◌, Option, none, some, List, [], ◌∷◌, ◌++◌, map, filter,
  head?, drop, length, if◌then◌else◌,
}
use tornjak.Js.{Text, codes, ◌===◌, to_text}
use tornjak.Types.{Agent, AttestorInfo}
use tornjak.Spiffe.Ids.{prefix, text_of}
use tornjak.Config.{
  Env, is_manager, get_api_server_uri, api_endpoint, spire_agents_api, spire_agents_ban_api,
}
use tornjak.Store.Actions.{agents_list}
use tornjak.Api.Calls.{Effect, dispatch}

pub record AgentRow : Type 0 where
  pub id : Text
  pub trustdomain : Option Text
  pub spiffeid : Text
  pub info : Text
  pub plugin : Text

abbrev plugin_of : Option AttestorInfo → Text
plugin_of none = codes "No Plugin Configured For Agent"
plugin_of (some info) = info.plugin

-- The plugin of the first information on the agent.
unfoldable pub plugin_for : Option (List AttestorInfo) → Text → Text
unfolding ◌===◌
plugin_for none spiffeid = codes "No Plugin Configured For Agent"
plugin_for (some infos) spiffeid =
    plugin_of (head? (filter (λ (info : AttestorInfo). info.spiffeid === spiffeid) infos))

unfoldable pub agent_row : (Agent → Text) → Option (List AttestorInfo) → ℕ → Agent → AgentRow
unfolding plugin_for to_text
agent_row show infos i a =
    let spiffeid = prefix ++ (text_of a.id.trust_domain ++ text_of a.id.path) in
    record {
      id = to_text (i + 1);
      trustdomain = a.id.trust_domain;
      spiffeid = spiffeid;
      info = show a;
      plugin = plugin_for infos spiffeid;
    }

-- The loop of `prepareTableData`, from row `i` on.
unfoldable pub agent_rows :
    (Agent → Text) → Option (List AttestorInfo) → ℕ → List Agent → List AgentRow
unfolding agent_row
agent_rows show infos i [] = []
agent_rows show infos i (a ∷ agents) =
    agent_row show infos i a ∷ agent_rows show infos (suc i) agents

-- `cells[1]` and `cells[2]` are the trust domain and the SPIFFE ID: the ID without the prefix and as
-- many letters as the trust domain has is the path. A missing trust domain throws.
unfoldable pub selected_id : AgentRow → Option (Text × Text)
selected_id row = elim row.trustdomain [
  | none ↦ none
  | some trust_domain ↦ some (trust_domain, drop (length (trust_domain ++ prefix)) row.spiffeid)
]

-- A request on one agent.
pub record AgentRequest : Type 0 where
  pub uri : Text
  pub trust_domain : Text
  pub path : Text

abbrev pub delete_uri : Env → Text → Text
delete_uri env server =
    if is_manager env
    then get_api_server_uri env (codes "/manager-api/agent/delete") ++ (codes "/" ++ server)
    else get_api_server_uri env (api_endpoint env spire_agents_api)

abbrev pub ban_uri : Env → Text → Text
ban_uri env server =
    if is_manager env
    then get_api_server_uri env (codes "/manager-api/agent/ban") ++ (codes "/" ++ server)
    else get_api_server_uri env (api_endpoint env spire_agents_ban_api)

-- The loop over the selected rows: the requests that are made, and whether it ran to its end.
unfoldable pub requests : Text → List AgentRow → List AgentRequest × Bool
unfolding selected_id
requests uri [] = ([], true)
requests uri (row ∷ rows) =
    let rest = requests uri rows in
    elim (selected_id row) [
      | none ↦ ([], false)
      | some (trust_domain, path) ↦
          (record { uri = uri; trust_domain = trust_domain; path = path } ∷ rest.0, rest.1)
    ]

unfoldable pub delete_agent : Env → Text → List AgentRow → List AgentRequest × Bool
unfolding requests
delete_agent env server rows = requests (delete_uri env server) rows

unfoldable pub ban_agent : Env → Text → List AgentRow → List AgentRequest × Bool
unfolding requests
ban_agent env server rows = requests (ban_uri env server) rows

-- `el.id.trust_domain !== id.trust_domain || el.id.path !== id.path`
abbrev pub is_part : Option Text → Text → Bool
is_part none t = false
is_part (some s) t = s === t

unfoldable pub is_other : AgentRequest → Agent → Bool
unfolding ◌===◌
is_other id el =
    not (is_part el.id.trust_domain id.trust_domain) || not (is_part el.id.path id.path)

abbrev pub without : List Agent → AgentRequest → Effect
without agents id = dispatch agents_list (filter (is_other id) agents)

-- After all requests have succeeded, one dispatch for each. Within the loop the properties stay as
-- they were, since the component is rendered again only after it.
unfoldable pub agents_deleted : Option (List Agent) → List AgentRequest → List Effect
unfolding is_other
agents_deleted none ids = []
agents_deleted (some global_agents_list) ids = map (without global_agents_list) ids
