-- ===== src/Tables/Tests.antt =====
-- Tests of the tables, and instances of their theorems.
use tornjak.Prelude.{
  ℕ, ◌≡◌, ◌≤◌, refl, true, false, not, none, some, List, [], ◌∷◌, ◌++◌, map, filter, length, ◌||◌,
  any, if◌then◌else◌,
}
use tornjak.Js.{Text, codes, ◌===◌}
use tornjak.Types.{Agent}
use tornjak.Config.{Env, truthy}
use tornjak.Access.Roles.{is_admin_role}
use tornjak.Store.Actions.{agents_list}
use tornjak.Store.Reducers.{initial_state}
use tornjak.Store.Registers.{read}
use tornjak.Api.Calls.{run}
use tornjak.Tables.Agents.{
  AgentRow, agent_rows, AgentRequest, delete_uri, ban_uri, delete_agent, ban_agent, is_other,
  agents_deleted,
}
use tornjak.Tables.Entries.{EntryRow}
use tornjak.Tables.Toolbar.{
  Functions, delete, download, ban, attest, button_if, toolbar, row_buttons, toolbar_lem,
}
use tornjak.Tables.Pages.{State, initial, on_change, page_rows}
use tornjak.Tables.Laws.AgentLaws.{on_agent, requests-agent_rows, agents_deleted_last}
use tornjak.Tables.Laws.PageLaws.{start, next, page_rows-length_le}

abbrev local : Env
local = record {
  api_server_uri = none;
  tornjak_manager = none;
  api_version = codes "v1";
  auth_server_uri = some (codes "http://auth");
  urljoin = λ a b. a ++ b;
}

abbrev manager : Env
manager = record local { tornjak_manager = some (codes "true") }

abbrev agent_at : Text → Agent
agent_at path = record {
  id = record { trust_domain = some (codes "e.org"); path = some path };
  attetstation_type = codes "join_token";
  x509svid_serial_number = [];
  x509svid_expires_at = 0;
  selectors = none;
  banned = false;
}

abbrev agents : List Agent
agents = agent_at (codes "/a") ∷ agent_at (codes "/b") ∷ []

abbrev no_text : Agent → Text
no_text a = []

-- The SPIFFE ID in the table.
second_row :
    map (λ (r : AgentRow). r.spiffeid) (agent_rows no_text none 0 agents)
    ≡ codes "spiffe://e.org/a" ∷ codes "spiffe://e.org/b" ∷ []
unfolding agent_rows
second_row = refl

requests-agent_rows_example :
    (delete_agent local [] (agent_rows no_text none 0 agents)
      ≡ (map (on_agent (delete_uri local [])) agents, true))
    × (ban_agent local [] (agent_rows no_text none 0 agents)
        ≡ (map (on_agent (ban_uri local [])) agents, true))
requests-agent_rows_example =
    requests-agent_rows local [] no_text none 0 agents
      ((codes "e.org", refl), ((codes "e.org", refl), tt))

abbrev request_a : AgentRequest
request_a = on_agent [] (agent_at (codes "/a"))

abbrev request_b : AgentRequest
request_b = on_agent [] (agent_at (codes "/b"))

-- After the deletion of both agents, the first is still in the list.
first_left : filter (is_other request_b) agents ≡ agent_at (codes "/a") ∷ []
unfolding is_other
first_left = refl

agents_deleted_last_example :
    read agents_list (run (agents_deleted (some agents) (request_a ∷ request_b ∷ [])) initial_state)
    ≡ filter (is_other request_b) agents
agents_deleted_last_example = agents_deleted_last agents (request_a ∷ []) request_b initial_state

abbrev row_of : Text → EntryRow
row_of id = record {
  idx = codes "1";
  id = id;
  spiffeid = [];
  parentid = [];
  selectors = [];
  info = id;
  expired = [];
}

abbrev numbers : List ℕ
numbers = 5 ∷ 6 ∷ 7 ∷ []

abbrev second : State
second = record { page = 2; page_size = 2 }

page_rows-length_le_example :
    (length (page_rows (on_change second initial) numbers) ≤ (on_change second initial).page_size)
    × (1 ≤ (on_change second initial).page_size)
page_rows-length_le_example =
    page_rows-length_le (on_change second initial) numbers (next second start)

abbrev every : Functions
every = record { delete_entity = true; ban_entity = true; download_entity = true }

toolbar_lem_example :
    (toolbar local [] every ≡ (
      if any is_admin_role [] || not (truthy local.auth_server_uri)
      then delete ∷ download ∷ ban ∷ []
      else download ∷ []))
    × (row_buttons local [] (codes "Agent") ≡ (
        if any is_admin_role [] || not (truthy local.auth_server_uri)
        then button_if (codes "Agent" === codes "Agent") attest
        else []))
toolbar_lem_example = toolbar_lem local [] every (codes "Agent")
