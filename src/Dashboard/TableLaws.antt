-- ===== src/Dashboard/TableLaws.antt =====
-- The charts and the tables of the dashboard agree, and so do a row and the page of its details.
use tornjak.Prelude.{
  ◌≡◌, refl, sym, ap, ◌∙◌, Bool, true, false, none, some, List, [], ◌∷◌, ◌++◌, append_assoc, map,
  filter, arith,
}
use mathlib.Core.List.{Memᴰ}
use tornjak.Prelude.{Memᴰ-filter, Memᴰ_of_filter, ◌↔◌}
use tornjak.Js.{Text, ===_iff, includes, add}
use tornjak.Types.{Agent, Entry}
use tornjak.Spiffe.Ids.{get_agent_spiffeid, get_entry_spiffeid}
use tornjak.Spiffe.Association.{Dict, lookup, get_agent_entries, get_agents_entries}
use tornjak.Spiffe.Association.OnePass.{ids, lookup-get_agents_entries_unique}
use tornjak.Spiffe.Count.{add_entry_ids, number_entries_of_agent}
use tornjak.Dashboard.Rows.{ClusterRow, AgentRow, EntryRow, get_dashboard_agent_meta_data}
use tornjak.Dashboard.Details.{cluster_row, entry_row}
use tornjak.Dashboard.Tables.{TableProps, agent_passes, all_agent_rows, agent_list, details_tables}
use tornjak.Dashboard.Charts.{Section, add_ids, get_child_entries, agent_sections}

-- No two agents have the same ID.
abbrev pub IsDistinct : List Agent → List Agent → Type 0
IsDistinct before [] = Unit
IsDistinct before (a ∷ after) =
    (includes (ids before) (get_agent_spiffeid (some a)) ≡ false)
    × (includes (ids after) (get_agent_spiffeid (some a)) ≡ false)
    × IsDistinct (before ++ (a ∷ [])) after

-- The section that the rows of the table give for an agent.
abbrev counted : List Entry → Agent → Section
counted entries a = record {
  group = get_agent_spiffeid (some a);
  value = number_entries_of_agent a entries;
}

add_ids-add_entry_ids :
    (valid : List Text) (es : List Entry) → add_ids valid es ≡ add_entry_ids valid es
unfolding add_ids add_entry_ids
add_ids-add_entry_ids valid [] = refl
add_ids-add_entry_ids valid (e ∷ es) =
    add_ids-add_entry_ids (add valid (get_entry_spiffeid (some e))) es

child-counted :
    (entries : List Entry) (a : Agent) (d : Dict)
    → lookup (get_agent_spiffeid (some a)) d ≡ some (get_agent_entries (some a) entries)
    → get_child_entries entries a (some d) ≡ counted entries a
unfolding get_child_entries number_entries_of_agent
child-counted entries a d h = rw (h, add_ids-add_entry_ids) refl

sections_from :
    (before after : List Agent) (entries : List Entry)
    → IsDistinct before after
    → map
        (λ a.
          get_child_entries entries a (get_agents_entries (some (before ++ after)) (some entries)))
        after
      ≡ map (counted entries) after
sections_from before [] entries h = refl
sections_from before (a ∷ after) entries (no_earlier, no_later, h) =
    let (d, e, l) = lookup-get_agents_entries_unique before after a no_earlier no_later entries in
    let first : get_child_entries entries a
          (get_agents_entries (some (before ++ (a ∷ after))) (some entries))
        ≡ counted entries a =
      rw e (child-counted entries a d l) in
    let rest = sections_from (before ++ (a ∷ [])) after entries h in
    rw first (ap (λ l. counted entries a ∷ l) (rw (append_assoc before (a ∷ []) after) at rest))

rows_counted :
    (props : TableProps) (agents : List Agent) (entries : List Entry)
    → map
        (λ (r : AgentRow). record { group = r.id; value = r.num_entries })
        (all_agent_rows props agents entries)
      ≡ map (counted entries) agents
unfolding get_dashboard_agent_meta_data
rows_counted props [] entries = refl
rows_counted props (a ∷ agents) entries =
    ap (λ l. counted entries a ∷ l) (rows_counted props agents entries)

-- The sections of the agents' chart are the IDs and the numbers of entries in the agents' table, row by row,
-- if no two agents have the same ID: the chart counts by one pass over all agents, the table by a
-- search for each.
pub agent_sections-agent_list :
    (props : TableProps) (agents : List Agent) (entries : List Entry)
    → props.agents ≡ some agents
    → props.entries ≡ some entries
    → IsDistinct [] agents
    → agent_sections props.agents props.entries
      ≡ map
          (λ (r : AgentRow). record { group = r.id; value = r.num_entries })
          (agent_list props none none)
unfolding agent_sections agent_list
agent_sections-agent_list props agents entries p q h =
    rw (p, q) (sections_from [] agents entries h ∙ sym (rows_counted props agents entries))

Memᴰ-filter_iff {ℓ κ} :
    {A : Type ℓ} (p : A → Bool) (xs : List A) (x : A) (q : Type κ)
    → ((p x ≡ true) ↔ q)
    → Memᴰ x (filter p xs) ↔ (Memᴰ x xs × q)
Memᴰ-filter_iff p xs x q (to, from_) =
    (λ m. let (k, h) = Memᴰ_of_filter p xs m in (k, to h), λ (k, h). Memᴰ-filter p xs k (from_ h))

-- An agent's row leads to a page of its cluster on which it is: the agents of the page of a cluster are
-- exactly the rows of all agents that name the cluster.
pub details_tables-cluster :
    (props : TableProps) (c : ClusterRow) (r : AgentRow)
    → (rows : List AgentRow) × ((details_tables props (cluster_row c)).agents ≡ some rows)
      × (Memᴰ r rows ↔ (Memᴰ r (agent_list props none none) × (r.cluster_name ≡ c.name)))
unfolding details_tables agent_list
details_tables-cluster props c r = (
  agent_list props (some c.name) none,
  refl,
  Memᴰ-filter_iff (agent_passes (some c.name) none) (agent_list props none none) r
      (r.cluster_name ≡ c.name) (ground (arith, ===_iff r.cluster_name c.name)),
)

-- The page of an entry lists as its agents exactly the rows with the ID of the entry's parent, so none if
-- the parent is no agent, even where the row names a canonical agent.
pub details_tables-entry :
    (props : TableProps) (e : EntryRow) (r : AgentRow)
    → (rows : List AgentRow) × ((details_tables props (entry_row e)).agents ≡ some rows)
      × (Memᴰ r rows ↔ (Memᴰ r (agent_list props none none) × (r.id ≡ e.parent_id)))
unfolding details_tables agent_list
details_tables-entry props e r = (
  agent_list props none (some e.parent_id),
  refl,
  Memᴰ-filter_iff (agent_passes none (some e.parent_id)) (agent_list props none none) r
      (r.id ≡ e.parent_id) (===_iff r.id e.parent_id),
)
