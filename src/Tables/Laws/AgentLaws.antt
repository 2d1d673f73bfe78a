-- ===== src/Tables/Laws/AgentLaws.antt =====
-- What the table of agents requests, and what is left of the list.
use tornjak.Prelude.{
  ℕ, suc, ◌≡◌, refl, sym, ap, ◌∙◌, true, Option, some, List, [], ◌∷◌, ◌++◌, append_assoc, map,
  filter, arith, length, drop, drop-append_length, length-append, All,
}
use tornjak.Js.{Text}
use tornjak.Types.{Agent, AttestorInfo}
use tornjak.Spiffe.Ids.{prefix, text_of}
use tornjak.Config.{Env}
use tornjak.Store.Actions.{agents_list}
use tornjak.Store.Reducers.{RootState, all_reducers}
use tornjak.Store.Registers.{read}
use tornjak.Api.Calls.{run}
use tornjak.Tables.Agents.{
  agent_row, agent_rows, selected_id, AgentRequest, delete_uri, requests, delete_agent, ban_agent,
  ban_uri, without, is_other, agents_deleted,
}

-- The request for one agent.
abbrev pub on_agent : Text → Agent → AgentRequest
on_agent uri a = record {
  uri = uri;
  trust_domain = text_of a.id.trust_domain;
  path = text_of a.id.path;
}

after_prefix : (t path : Text) → drop (length (t ++ prefix)) (prefix ++ (t ++ path)) ≡ path
after_prefix t path =
    let same : length (t ++ prefix) ≡ length (prefix ++ t) =
      omega (arith, length-append t prefix, length-append prefix t) in
    ap (λ n. drop n (prefix ++ (t ++ path))) same
    ∙ (ap (λ l. drop (length (prefix ++ t)) l) (sym (append_assoc prefix t path))
        ∙ drop-append_length (prefix ++ t) path)

selected_id-agent_row :
    (show : Agent → Text) (infos : Option (List AttestorInfo)) (i : ℕ) (a : Agent) (t : Text)
    → a.id.trust_domain ≡ some t
    → selected_id (agent_row show infos i a) ≡ some (t, text_of a.id.path)
unfolding selected_id agent_row
selected_id-agent_row show infos i a t h =
    let read_ : text_of a.id.trust_domain ≡ t = ap text_of h in
    rw (h, read_) (ap (λ p. some (t, p)) (after_prefix t (text_of a.id.path)))

-- Every agent has a trust domain.
abbrev pub Named : Agent → Type 0
Named a = (t : Text) × (a.id.trust_domain ≡ some t)

requests_rows :
    (uri : Text) (show : Agent → Text) (infos : Option (List AttestorInfo)) (i : ℕ)
    (agents : List Agent)
    → All Named agents
    → requests uri (agent_rows show infos i agents) ≡ (map (on_agent uri) agents, true)
unfolding requests agent_rows
requests_rows uri show infos i [] h = refl
requests_rows uri show infos i (a ∷ agents) ((t, e), h) =
    rw (selected_id-agent_row show infos i a t e, requests_rows uri show infos (suc i) agents h, e)
      refl

-- Selecting all rows of the table of agents and pressing delete or ban requests, for every agent that the
-- table was made from and in their order, the agent's own trust domain and path, though the rows
-- only hold the SPIFFE ID, if every agent has a trust domain.
pub requests-agent_rows :
    (env : Env) (server : Text) (show : Agent → Text) (infos : Option (List AttestorInfo)) (i : ℕ)
    (agents : List Agent)
    → All Named agents
    → (delete_agent env server (agent_rows show infos i agents)
        ≡ (map (on_agent (delete_uri env server)) agents, true))
      × (ban_agent env server (agent_rows show infos i agents)
          ≡ (map (on_agent (ban_uri env server)) agents, true))
unfolding delete_agent ban_agent
requests-agent_rows env server show infos i agents h = (
  requests_rows (delete_uri env server) show infos i agents h,
  requests_rows (ban_uri env server) show infos i agents h,
)

run_dispatches :
    (agents : List Agent) (ids : List AgentRequest) (id : AgentRequest) (s : RootState)
    → read agents_list (run (map (without agents) (ids ++ (id ∷ []))) s)
      ≡ filter (is_other id) agents
unfolding run
run_dispatches agents [] id s = refl
run_dispatches agents (i ∷ ids) id s =
    run_dispatches agents ids id
      (all_reducers s (record { type = agents_list; payload = filter (is_other i) agents }))

-- After the deletion of agents the store's list is the given list without the last one deleted, and with
-- all others, the ones deleted before it included.
pub agents_deleted_last :
    (agents : List Agent) (ids : List AgentRequest) (id : AgentRequest) (s : RootState)
    → read agents_list (run (agents_deleted (some agents) (ids ++ (id ∷ []))) s)
      ≡ filter (is_other id) agents
unfolding agents_deleted
agents_deleted_last agents ids id s = run_dispatches agents ids id s
