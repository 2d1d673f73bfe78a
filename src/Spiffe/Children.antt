-- ===== src/Spiffe/Children.antt =====
-- `getChildEntries` of frontend/src/components/spiffe-helper.tsx. It reads the array of the agent's
-- entries by a SPIFFE ID. What the property of an array by such a name is, is the language's own
-- business and a parameter here.
use tornjak.Prelude.{
  append-nil, ◌≡◌, ◌⊎◌, inl, inr, ap, ◌∙◌, Bool-cases, Option, none, some, List, [], ◌++◌, filter,
  head?, map,
}
use tornjak.Js.{Text, ◌===◌}
use tornjak.Types.{SpiffeId, Agent, Entry}
use tornjak.Spiffe.Ids.{
  prefix, text_of, check_spiffeid_validity, spiffeid_text, get_agent_spiffeid, get_entry_spiffeid,
  get_entry_parentid,
}
use tornjak.Spiffe.Association.{get_agent_entries}

-- What `array[name]` is to the code: `undefined`, a value without a method `map`, or a list.
pub data Property : Type 0 where
  undefined : Property
  without_map : Property
  listed : List Entry → Property

-- An element of the result, which mixes entries with IDs of entries.
pub data Child : Type 0 where
  child : Entry → Child
  child_id : Text → Child

pub data ChildEntries : Type 0 where
  not_a_number : ChildEntries
  type_error : ChildEntries
  children : List Child → ChildEntries

-- `entriesList.concat(entriesAgent)`
abbrev pub concat_ids : List Entry → Property → ChildEntries
concat_ids entries_list undefined = children (map child entries_list ++ [])
concat_ids entries_list without_map = type_error
concat_ids entries_list (listed agent_entries) = children (
    map child entries_list
    ++ map (λ (cur : Entry). child_id (get_entry_spiffeid (some cur))) agent_entries)

unfoldable pub get_child_entries :
    (List Entry → Text → Property) → Text → Option (List Agent) → Option (List Entry) → ChildEntries
unfolding get_agent_spiffeid get_entry_parentid get_entry_spiffeid get_agent_entries ◌===◌
get_child_entries property spiffeid global_agents none = not_a_number
get_child_entries property spiffeid none (some global_entries) = type_error
get_child_entries property spiffeid (some global_agents) (some global_entries) =
    let cur_agent =
      filter (λ (a : Agent). get_agent_spiffeid (some a) === spiffeid) global_agents in
    let entries_list =
      filter (λ (e : Entry). spiffeid === get_entry_parentid (some e)) global_entries in
    let agent_entries_dict = get_agent_entries (head? cur_agent) global_entries in
    concat_ids entries_list (property agent_entries_dict spiffeid)

spiffeid_text-prefix :
    (id : SpiffeId)
    → (spiffeid_text id ≡ [])
      ⊎ (spiffeid_text id ≡ prefix ++ (text_of id.trust_domain ++ text_of id.path))
unfolding spiffeid_text
spiffeid_text-prefix id = elim (Bool-cases (check_spiffeid_validity id.trust_domain id.path)) [
  | inl e ↦ inr (rw e)
  | inr e ↦ inl (rw e)
]

-- What an array offers by the names that SPIFFE IDs have: its properties are the indices of its
-- elements, its length and the methods of its prototype, and none of these names is empty or begins
-- with `spiffe://`.
unfoldable pub IsOfArray : (List Entry → Text → Property) → Type 0
IsOfArray property =
    (es : List Entry)
    → (property es [] ≡ undefined) × ((rest : Text) → property es (prefix ++ rest) ≡ undefined)

property-get_agent_spiffeid :
    (property : List Entry → Text → Property) (a : Agent) (es : List Entry)
    → IsOfArray property
    → property es (get_agent_spiffeid (some a)) ≡ undefined
unfolding get_agent_spiffeid IsOfArray
property-get_agent_spiffeid property a es h = elim (spiffeid_text-prefix a.id) [
  | inl e ↦ ap (property es) e ∙ (h es).0
  | inr e ↦ ap (property es) e ∙ (h es).1 _
]

-- Whatever entries are associated with the agent, the children found for its ID are the entries
-- directly below it and nothing else, where an array has no property named by a SPIFFE ID.
pub get_child_entries-direct :
    (property : List Entry → Text → Property) (a : Agent) (agents : List Agent)
    (entries : List Entry)
    → IsOfArray property
    → get_child_entries property (get_agent_spiffeid (some a)) (some agents) (some entries)
      ≡ children (
          map child (
            filter
              (λ (e : Entry). get_agent_spiffeid (some a) === get_entry_parentid (some e))
              entries))
unfolding get_child_entries
get_child_entries-direct property a agents entries h =
    ap (concat_ids _) (property-get_agent_spiffeid property a _ h) ∙ ap children (append-nil _)
