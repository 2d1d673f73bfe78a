-- ===== src/Spiffe/Association.antt =====
-- Which entries belong to which agents: `getAgentEntries`, `getAgentsEntries` and
-- `getCanonicalAgentSpiffeid`. Where the source replaces missing selectors of an agent or an entry
-- by an empty list in place, the model reads them as an empty list.
pub mod OnePass
pub mod Laws
use tornjak.Prelude.{
  Bool, false, true, Option, none, some, List, [], ◌∷◌, ◌++◌, if◌then◌else◌, filter, head?, map,
}
use tornjak.Js.{Text, codes, ◌===◌}
use tornjak.Types.{Agent, Entry}
use tornjak.Spiffe.Ids.{get_agent_spiffeid}
use tornjak.Spiffe.Selectors.{is_superset, selector_set}

-- `path === t` for a path that may be missing.
abbrev pub path_is : Option Text → Text → Bool
path_is none t = false
path_is (some s) t = s === t

-- An entry below the server itself: `e.parent_id.path === "/spire/server"`.
unfoldable pub is_node_entry : Entry → Bool
unfolding ◌===◌
is_node_entry e = path_is e.parent_id.path (codes "/spire/server")

-- `isAssocWithAgent` and `isAssocWithEntry`: the agent has every selector of the entry.
unfoldable pub is_assoc : List Text → Entry → Bool
unfolding is_superset selector_set
is_assoc agent_selectors e = is_superset agent_selectors (selector_set e.selectors)

unfoldable pub get_agent_entries : Option Agent → List Entry → List Entry
unfolding is_node_entry is_assoc
get_agent_entries none entries = []
get_agent_entries (some agent) entries =
    let node_entries = filter is_node_entry entries in
    filter (is_assoc (selector_set agent.selectors)) node_entries

-- An object used as a dictionary of lists. Assignment to a key that is there replaces its value.
abbrev pub Dict : Type 0
Dict = List (Text × List Entry)

unfoldable pub lookup : Text → Dict → Option (List Entry)
unfolding ◌===◌
lookup k [] = none
lookup k ((j, es) ∷ d) = if j === k then some es else lookup k d

unfoldable pub assign : Text → List Entry → Dict → Dict
unfolding ◌===◌
assign k v [] = (k, v) ∷ []
assign k v ((j, es) ∷ d) = if j === k then (j, v) ∷ d else (j, es) ∷ assign k v d

-- `dict[k].push(e)`. Every key that is pushed to was assigned before.
unfoldable pub push : Text → Entry → Dict → Dict
unfolding ◌===◌
push k e [] = []
push k e ((j, es) ∷ d) = if j === k then (j, es ++ e ∷ []) ∷ d else (j, es) ∷ push k e d

-- What a closure of `lambdas` captures: the agent's key and its set of selectors.
pub record Lambda : Type 0 where
  pub agent_id : Text
  pub agent_selectors : List Text

-- A call of a closure.
unfoldable pub call : Lambda → Entry → Dict → Dict
unfolding is_assoc push
call l e d = if is_assoc l.agent_selectors e then push l.agent_id e d else d

unfoldable pub lambda_of : Agent → Lambda
unfolding get_agent_spiffeid selector_set
lambda_of agent = record {
  agent_id = get_agent_spiffeid (some agent);
  agent_selectors = selector_set agent.selectors;
}

-- The first loop: an empty list for every agent, and a closure for each.
unfoldable pub register : List Agent → Dict → List Lambda → Dict × List Lambda
unfolding lambda_of assign
register [] d lambdas = (d, lambdas)
register (agent ∷ agents) d lambdas =
    let l = lambda_of agent in register agents (assign l.agent_id [] d) (lambdas ++ l ∷ [])

-- The second loop, in the order of the source: for each entry, every closure.
unfoldable pub call_all : List Lambda → Entry → Dict → Dict
unfolding call
call_all [] e d = d
call_all (l ∷ lambdas) e d = call_all lambdas e (call l e d)

unfoldable pub distribute : List Entry → List Lambda → Dict → Dict
unfolding call_all
distribute [] lambdas d = d
distribute (e ∷ entries) lambdas d = distribute entries lambdas (call_all lambdas e d)

abbrev pub fill : List Entry → Dict × List Lambda → Dict
fill node_entries (d, lambdas) = distribute node_entries lambdas d

unfoldable pub get_agents_entries : Option (List Agent) → Option (List Entry) → Option Dict
unfolding register distribute is_node_entry
get_agents_entries agents none = none
get_agents_entries none (some entries) = none
get_agents_entries (some agents) (some entries) =
    some (fill (filter is_node_entry entries) (register agents [] []))

unfoldable pub get_canonical_agent_spiffeid : Entry → List Agent → Text
unfolding is_assoc get_agent_spiffeid
get_canonical_agent_spiffeid e agents =
    let filtered = filter (λ (a : Agent). is_assoc (selector_set a.selectors) e) agents in
    get_agent_spiffeid (head? filtered)
