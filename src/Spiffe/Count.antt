-- ===== src/Spiffe/Count.antt =====
-- `numberEntriesOfAgent`.
use tornjak.Prelude.{
  ℕ, ◌≡◌, ◌∙◌, Bool, ◌||◌, some, List, [], ◌∷◌, arith, filter, length, any, count, length-filter,
  count-congr,
}
use tornjak.Js.{Text, ◌===◌, includes, includes-add, includes-make_set, add, make_set}
use tornjak.Types.{Agent, Entry}
use tornjak.Spiffe.Ids.{get_agent_spiffeid, get_entry_spiffeid, get_entry_parentid}
use tornjak.Spiffe.Association.{get_agent_entries}

-- The loop that adds the ID of each entry of the agent.
unfoldable pub add_entry_ids : List Text → List Entry → List Text
add_entry_ids valid_ids [] = valid_ids
add_entry_ids valid_ids (e ∷ es) = add_entry_ids (add valid_ids (get_entry_spiffeid (some e))) es

unfoldable pub number_entries_of_agent : Agent → List Entry → ℕ
unfolding get_agent_entries get_agent_spiffeid get_entry_spiffeid get_entry_parentid add_entry_ids
    add make_set ◌===◌
number_entries_of_agent agent global_entries =
    let agent_entries = get_agent_entries (some agent) global_entries in
    let valid_ids = add_entry_ids (make_set (get_agent_spiffeid (some agent) ∷ [])) agent_entries in
    length (filter (λ e. includes valid_ids (get_entry_parentid (some e))) global_entries)

-- The parent of an entry is the agent, or an entry of the agent.
abbrev pub is_child : Agent → List Entry → Entry → Bool
is_child a entries e =
    get_agent_spiffeid (some a) === get_entry_parentid (some e)
    || any (λ n. get_entry_spiffeid (some n) === get_entry_parentid (some e))
        (get_agent_entries (some a) entries)

includes-add_entry_ids :
    (ids : List Text) (es : List Entry) (t : Text)
    → includes (add_entry_ids ids es) t
      ≡ (includes ids t || any (λ n. get_entry_spiffeid (some n) === t) es)
unfolding add_entry_ids
includes-add_entry_ids ids [] t = ground arith
includes-add_entry_ids ids (e ∷ es) t = ground (
  arith,
  includes-add_entry_ids (add ids (get_entry_spiffeid (some e))) es t,
  includes-add ids (get_entry_spiffeid (some e)) t,
)

includes-valid_ids :
    (id : Text) (es : List Entry) (t : Text)
    → includes (add_entry_ids (make_set (id ∷ [])) es) t
      ≡ (id === t || any (λ n. get_entry_spiffeid (some n) === t) es)
includes-valid_ids id es t =
    ground (arith, includes-add_entry_ids (make_set (id ∷ [])) es t, includes-make_set (id ∷ []) t)

-- The number is that of the entries whose parent is the agent or an entry of the agent, each entry
-- counted once.
pub number_entries_of_agent-count :
    (a : Agent) (entries : List Entry)
    → number_entries_of_agent a entries ≡ count (is_child a entries) entries
unfolding number_entries_of_agent
number_entries_of_agent-count a entries =
    length-filter _ entries
    ∙ count-congr _ (is_child a entries) entries (λ e.
      includes-valid_ids (get_agent_spiffeid (some a)) (get_agent_entries (some a) entries)
        (get_entry_parentid (some e)))
