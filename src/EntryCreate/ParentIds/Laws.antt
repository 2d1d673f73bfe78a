-- ===== src/EntryCreate/ParentIds/Laws.antt =====
-- The parents that the form offers.
use tornjak.Prelude.{
  ◌≡◌, refl, sym, ◌∙◌, ap, false, ◌||◌, some, List, [], ◌∷◌, ◌++◌, map, append_assoc, append-nil,
  arith, any-append, map-append,
}
use tornjak.Js.{Text, includes, ◌===◌, ===_comm}
use tornjak.Types.{Agent, Entry}
use tornjak.Spiffe.Ids.{get_agent_spiffeid, get_entry_spiffeid}
use tornjak.Spiffe.Association.{Dict, lookup, get_agents_entries, get_agent_entries}
use tornjak.Spiffe.Association.OnePass.{
  ids, get_agents_entries_keys, lookup-get_agents_entries_unique,
}
use tornjak.EntryCreate.State.{State, Props}
use tornjak.EntryCreate.ParentIds.{
  list_agents, set_lists, fixed_parents, prepare_parent_id_agents_list,
}

-- No two agents have the same ID.
abbrev pub Distinct : List Agent → Type 0
Distinct [] = Unit
Distinct (a ∷ agents) =
    (includes (ids agents) (get_agent_spiffeid (some a)) ≡ false) × Distinct agents

-- An agent's ID, and the IDs of its entries.
unfoldable pub with_entries : List Entry → List Agent → List Text
with_entries entries [] = []
with_entries entries (a ∷ agents) =
    (get_agent_spiffeid (some a)
      ∷ map (λ e. get_entry_spiffeid (some e)) (get_agent_entries (some a) entries))
    ++ with_entries entries agents

includes-ids :
    (k : Text) (xs ys : List Agent)
    → includes (ids (xs ++ ys)) k ≡ (includes (ids xs) k || includes (ids ys) k)
includes-ids k xs ys = rw map-append (any-append (λ x. x === k) (ids xs) (ids ys))

Distinct-split :
    (before : List Agent) (a : Agent) (after : List Agent)
    → Distinct (before ++ a ∷ after)
    → (includes (ids before) (get_agent_spiffeid (some a)) ≡ false)
      × (includes (ids after) (get_agent_spiffeid (some a)) ≡ false)
Distinct-split [] a after h = (refl, h.0)
Distinct-split (b ∷ before) a after h =
    let k = get_agent_spiffeid (some a) in
    let j = get_agent_spiffeid (some b) in
    ground (
      arith,
      Distinct-split before a after h.1,
      includes-ids j before (a ∷ after),
      h.0,
      ===_comm k j,
    )

list_agents-with_entries :
    (entries : List Entry) (d : Dict) (before after : List Agent) (acc : List Text)
    → Distinct (before ++ after)
    → get_agents_entries (some (before ++ after)) (some entries) ≡ some d
    → list_agents (some d) acc after ≡ some (acc ++ with_entries entries after)
unfolding list_agents with_entries
list_agents-with_entries entries d before [] acc h e = ap some (sym (append-nil acc))
list_agents-with_entries entries d before (a ∷ after) acc h e =
    let (no_earlier, no_later) = Distinct-split before a after h in
    let (d', made, found) =
      lookup-get_agents_entries_unique before after a no_earlier no_later entries in
    let next = before ++ a ∷ [] in
    let same : next ++ after ≡ before ++ a ∷ after = append_assoc before (a ∷ []) after in
    let here : lookup (get_agent_spiffeid (some a)) d ≡ some (get_agent_entries (some a) entries) =
      cc (found, made, e) in
    rw here (
      list_agents-with_entries entries d next after _ (rw same h) (rw same e)
      ∙ ap some (append_assoc acc _ (with_entries entries after)))

-- With agents of distinct IDs the form offers, in this order, manual entry, the server, and every
-- agent's ID followed by the IDs of its entries; the second list leaves manual entry out.
pub prepare_parent_id_agents_list-with_entries :
    (props : Props) (s : State) (trust_domain : Text) (agents : List Agent) (entries : List Entry)
    → props.global_debug_server_info ≡ some (some trust_domain)
    → props.global_agents_list ≡ some agents
    → props.global_entries_list ≡ some entries
    → Distinct agents
    → (t : State) × (prepare_parent_id_agents_list props s ≡ some t)
      × (t.agents_id_list ≡ fixed_parents props s ++ with_entries entries agents)
      × (t.agents_id_list ≡ s.parent_id_manual_entry_option ∷ t.agents_id_list_no_manual_option)
unfolding prepare_parent_id_agents_list
prepare_parent_id_agents_list-with_entries props s td agents entries debug has_agents has_entries
      h =
    let (d, made, _) = get_agents_entries_keys agents entries [] in
    let listed = list_agents-with_entries entries d [] agents (fixed_parents props s) h made in
    (
      set_lists (some (fixed_parents props s ++ with_entries entries agents)) s,
      rw (debug, has_agents, has_entries, made, listed),
      refl,
      refl,
    )
