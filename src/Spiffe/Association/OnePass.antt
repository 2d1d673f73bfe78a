-- ===== src/Spiffe/Association/OnePass.antt =====
-- The pass of `getAgentsEntries` over all agents at once against `getAgentEntries`, agent by agent.
use tornjak.Prelude.{
  ◌≡◌, refl, sym, ◌↔◌, ◌∙◌, ap, Bool, true, false, ◌&&◌, Option, none, some, List, [], ◌∷◌, ◌++◌,
  arith, if◌then◌else◌, filter, append_assoc, map-append, any-append, append-nil, map,
}
use tornjak.Js.{Text, ◌===◌, ===_iff, ===_refl, includes}
use tornjak.Types.{Agent, Entry}
use tornjak.Spiffe.Ids.{get_agent_spiffeid}
use tornjak.Spiffe.Selectors.{selector_set}
use tornjak.Spiffe.Association.{
  is_node_entry, is_assoc, get_agent_entries, Dict, lookup, assign, push, Lambda, call, lambda_of,
  register, call_all, distribute, fill, get_agents_entries,
}

abbrev add_to : List Entry → Option (List Entry) → Option (List Entry)
add_to es none = none
add_to es (some ds) = some (ds ++ es)

lookup-assign :
    (k j : Text) (v : List Entry) (d : Dict)
    → lookup j (assign k v d) ≡ (if k === j then some v else lookup j d)
unfolding lookup assign
lookup-assign k j v [] = refl
lookup-assign k j v ((i, es) ∷ d) =
    ground (arith, ===_iff k j, ===_iff i k, ===_iff i j, lookup-assign k j v d)

lookup-push :
    (k j : Text) (e : Entry) (d : Dict)
    → lookup j (push k e d) ≡ (if k === j then add_to (e ∷ []) (lookup j d) else lookup j d)
unfolding lookup push
lookup-push k j e [] = ground arith
lookup-push k j e ((i, es) ∷ d) =
    ground (arith, ===_iff k j, ===_iff i k, ===_iff i j, lookup-push k j e d)

-- How often the closures add the entry under a key.
hits : Text → Entry → List Lambda → List Entry
hits k e [] = []
hits k e (l ∷ ls) =
    if l.agent_id === k && is_assoc l.agent_selectors e then e ∷ hits k e ls else hits k e ls

add_to-append :
    (xs ys : List Entry) (o : Option (List Entry)) → add_to ys (add_to xs o) ≡ add_to (xs ++ ys) o
add_to-append xs ys none = refl
add_to-append xs ys (some ds) = ap some (append_assoc ds xs ys)

add_to-nil : (o : Option (List Entry)) → add_to [] o ≡ o
add_to-nil none = refl
add_to-nil (some ds) = ap some (append-nil ds)

lookup-call :
    (l : Lambda) (k : Text) (e : Entry) (d : Dict)
    → lookup k (call l e d) ≡ (
        if l.agent_id === k && is_assoc l.agent_selectors e
        then add_to (e ∷ []) (lookup k d)
        else lookup k d)
unfolding call
lookup-call l k e d = ground (arith, lookup-push l.agent_id k e d)

lookup-call_all :
    (ls : List Lambda) (k : Text) (e : Entry) (d : Dict)
    → lookup k (call_all ls e d) ≡ add_to (hits k e ls) (lookup k d)
unfolding call_all hits
lookup-call_all [] k e d = sym (add_to-nil _)
lookup-call_all (l ∷ ls) k e d = ground (
  arith,
  lookup-call_all ls k e (call l e d),
  lookup-call l k e d,
  add_to-append (e ∷ []) (hits k e ls) (lookup k d),
)

-- All that is added under a key, in the order of the entries.
gathered : Text → List Entry → List Lambda → List Entry
gathered k [] ls = []
gathered k (e ∷ es) ls = hits k e ls ++ gathered k es ls

lookup-distribute :
    (es : List Entry) (ls : List Lambda) (k : Text) (d : Dict)
    → lookup k (distribute es ls d) ≡ add_to (gathered k es ls) (lookup k d)
unfolding distribute gathered
lookup-distribute [] ls k d = sym (add_to-nil _)
lookup-distribute (e ∷ es) ls k d = ground (
  arith,
  lookup-distribute es ls k (call_all ls e d),
  lookup-call_all ls k e d,
  add_to-append (hits k e ls) (gathered k es ls) (lookup k d),
)

abbrev pub ids : List Agent → List Text
ids = map (λ a. get_agent_spiffeid (some a))

register_lambdas :
    (agents : List Agent) (d : Dict) (ls : List Lambda)
    → (register agents d ls).1 ≡ ls ++ map lambda_of agents
unfolding register
register_lambdas [] d ls = sym (append-nil ls)
register_lambdas (a ∷ agents) d ls =
    register_lambdas agents _ (ls ++ lambda_of a ∷ []) ∙ append_assoc ls (lambda_of a ∷ []) _

lookup-register :
    (agents : List Agent) (d : Dict) (ls : List Lambda) (k : Text)
    → lookup k (register agents d ls).0 ≡ (if includes (ids agents) k then some [] else lookup k d)
unfolding register
lookup-register [] d ls k = refl
lookup-register (a ∷ agents) d ls k =
    unfold lambda_of in
    ground (
      arith,
      lookup-register agents (assign (lambda_of a).agent_id [] d) (ls ++ lambda_of a ∷ []) k,
      lookup-assign (lambda_of a).agent_id k [] d,
    )

-- The list that the result holds for a key, whatever agents share the key.
lookup-get_agents_entries :
    (agents : List Agent) (entries : List Entry) (k : Text)
    → (d : Dict) × (get_agents_entries (some agents) (some entries) ≡ some d)
      × (lookup k d ≡ (
          if includes (ids agents) k
          then some (gathered k (filter is_node_entry entries) (map lambda_of agents))
          else none))
unfolding get_agents_entries lookup
lookup-get_agents_entries agents entries k =
    let r = register agents [] [] in
    (
      fill (filter is_node_entry entries) r,
      refl,
      ground (
        arith,
        lookup-distribute (filter is_node_entry entries) r.1 k r.0,
        lookup-register agents [] [] k,
        register_lambdas agents [] [],
      ),
    )

-- The result has a list for exactly the IDs of the agents.
pub get_agents_entries_keys :
    (agents : List Agent) (entries : List Entry) (k : Text)
    → (d : Dict) × (get_agents_entries (some agents) (some entries) ≡ some d)
      × ((lookup k d ≡ none) ↔ (includes (ids agents) k ≡ false))
get_agents_entries_keys agents entries k =
    let (d, e, l) = lookup-get_agents_entries agents entries k in (d, e, ground (arith))

hits-append :
    (k : Text) (e : Entry) (xs ys : List Lambda) → hits k e (xs ++ ys) ≡ hits k e xs ++ hits k e ys
unfolding hits
hits-append k e [] ys = refl
hits-append k e (x ∷ xs) ys = ground (arith, hits-append k e xs ys)

hits-absent :
    (k : Text) (e : Entry) (agents : List Agent)
    → includes (ids agents) k ≡ false
    → hits k e (map lambda_of agents) ≡ []
unfolding hits lambda_of
hits-absent k e [] h = refl
hits-absent k e (a ∷ agents) h = ground (arith, hits-absent k e agents)

gathered-filter :
    (k : Text) (p : Entry → Bool) (es : List Entry) (ls : List Lambda)
    → ((e : Entry) → hits k e ls ≡ (if p e then e ∷ [] else []))
    → gathered k es ls ≡ filter p es
unfolding gathered
gathered-filter k p [] ls h = refl
gathered-filter k p (e ∷ es) ls h = ground (arith, gathered-filter k p es ls h, h e)

module _ (before after : List Agent) (a : Agent)
    (no_earlier : includes (ids before) (get_agent_spiffeid (some a)) ≡ false)
    (no_later : includes (ids after) (get_agent_spiffeid (some a)) ≡ false) where
  hits_unique :
      (e : Entry)
      → hits (get_agent_spiffeid (some a)) e (map lambda_of (before ++ a ∷ after))
        ≡ (if is_assoc (lambda_of a).agent_selectors e then e ∷ [] else [])
  unfolding hits
  hits_unique e =
      let k = get_agent_spiffeid (some a) in
      rw (map-append, hits-append, hits-absent k e before no_earlier)
        (unfold lambda_of in ground (arith, hits-absent k e after no_later, ===_refl k))

  includes-ids : includes (ids (before ++ a ∷ after)) (get_agent_spiffeid (some a)) ≡ true
  includes-ids =
      let k = get_agent_spiffeid (some a) in
      rw map-append
        (ground (arith, any-append (λ x. x === k) (ids before) (ids (a ∷ after)), ===_refl k))

  -- The one pass over all agents finds for an agent what `getAgentEntries` finds for it alone, if
  -- no other agent has its ID.
  pub lookup-get_agents_entries_unique :
      (entries : List Entry)
      → (d : Dict) × (get_agents_entries (some (before ++ a ∷ after)) (some entries) ≡ some d)
        × (lookup (get_agent_spiffeid (some a)) d ≡ some (get_agent_entries (some a) entries))
  unfolding lambda_of get_agent_entries
  lookup-get_agents_entries_unique entries =
      let k = get_agent_spiffeid (some a) in
      let (d, e, l) = lookup-get_agents_entries (before ++ a ∷ after) entries k in
      (
        d,
        e,
        l
            ∙ rw (
              includes-ids,
              gathered-filter k (is_assoc (selector_set a.selectors)) (filter is_node_entry entries)
                  _ hits_unique,
            ),
      )
