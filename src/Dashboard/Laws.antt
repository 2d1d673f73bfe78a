-- ===== src/Dashboard/Laws.antt =====
-- What the rows of the dashboard and the details page say.
use tornjak.Prelude.{
  ℕ, ◌+◌, ◌*◌, ◌/◌, ◌≤◌, Bool-cases, Option-cases, ap, inl, inr, ◌≡◌, ◌≢◌, ◌↔◌, refl, sym, ◌∙◌,
  true, false, Option, none, some, List, [], ◌∷◌, ◌++◌, map, arith, if◌then◌else◌, All, filter,
  find, count, head?-filter,
}
use tornjak.Js.{Text, codes, ◌===◌, ===_iff, ===_refl, includes}
use tornjak.Types.{Agent, AttestorInfo, Cluster, Entry}
use tornjak.Spiffe.Ids.{get_agent_spiffeid, get_entry_spiffeid}
use tornjak.Spiffe.Count.{number_entries_of_agent, is_child, number_entries_of_agent-count}
use tornjak.EntryCreate.SelectorsList.{agent_of_parent, or_parent, canonical_of}
use tornjak.Dashboard.Rows.{
  number_entries_of_cluster, sum_of, workload_entry, canonical_parent_id, canonical_of_parent,
  at_most,
}
use tornjak.Dashboard.Details.{
  Selected, nothing, DetailProps, select, row_of_cluster, row_of_agent, row_of_entry,
  details_data_parse,
}

-- The entries of every agent that the cluster names, added up.
abbrev pub total_of_members : List Text → List Entry → List Agent → ℕ
total_of_members names entries [] = 0
total_of_members names entries (a ∷ agents) =
    (if includes names (get_agent_spiffeid (some a)) then count (is_child a entries) entries else 0)
    + total_of_members names entries agents

sum_of-members :
    (names : List Text) (entries : List Entry) (agents : List Agent) (acc : ℕ)
    → sum_of acc (
        map
          (λ a. number_entries_of_agent a entries)
          (filter (λ a. includes names (get_agent_spiffeid (some a))) agents))
      ≡ acc + total_of_members names entries agents
unfolding sum_of
sum_of-members names entries [] acc = omega arith
sum_of-members names entries (a ∷ agents) acc = ground (
  arith,
  sum_of-members names entries agents acc,
  sum_of-members names entries agents (acc + number_entries_of_agent a entries),
  number_entries_of_agent-count a entries,
)

-- The number of a cluster adds up, over the agents that the cluster names, the entries whose parent
-- is the agent or an entry of the agent.
pub number_entries_of_cluster-total :
    (cluster : Cluster) (entries : List Entry) (agents : List Agent)
    → number_entries_of_cluster cluster entries agents
      ≡ total_of_members cluster.agents_list entries agents
unfolding number_entries_of_cluster
number_entries_of_cluster-total cluster entries agents =
    omega (arith, sum_of-members cluster.agents_list entries agents 0)

at_most_iff :
    (m : Option ℕ) (now : ℕ)
    → (at_most m (now / 1000) ≡ true) ↔ ((t : ℕ) × (m ≡ some t) × (t * 1000 ≤ now))
at_most_iff none now = (λ h. cc, λ (t, e, _). cc)
at_most_iff (some m) now =
    (λ h. (m, refl, ground arith), λ (t, e, le). let same : m ≡ t = cc in ground arith)

-- An entry is shown as expired exactly if it has an expiry time and that second has begun, and as
-- active otherwise.
pub workload_entry-expiry :
    (to_date : ℕ → Text) (now : ℕ) (e : Entry) (infos : Option (List AttestorInfo))
    (agents : List Agent) (entries : List Entry)
    → let status = (workload_entry to_date now e infos agents entries).expiry_status in
      ((status ≡ codes "Expired") ↔ ((t : ℕ) × (e.expires_at ≡ some t) × (t * 1000 ≤ now)))
      × ((status ≡ codes "Active") ↔ (¬ ((t : ℕ) × (e.expires_at ≡ some t) × (t * 1000 ≤ now))))
unfolding workload_entry
workload_entry-expiry to_date now e infos agents entries =
    let past = at_most_iff e.expires_at now in
    elim (Bool-cases (at_most e.expires_at (now / 1000))) [
      | inl yes_ ↦ rw yes_ ((λ _. past.0 yes_, λ _. refl), (λ h. cc, λ h. absurd (h (past.0 yes_))))
      | inr no_ ↦
          rw no_
            ((λ h. cc, λ k. let q = past.1 k in cc), (λ _. λ k. let p = past.1 k in cc, λ _. refl))
    ]

find-includes :
    (agents : List Agent) (t : Text)
    → find (λ a. get_agent_spiffeid (some a) === t) agents ≡ none
    → includes (map (λ a. get_agent_spiffeid (some a)) agents) t ≡ false
find-includes [] t h = refl
find-includes (a ∷ agents) t h = ground (arith, find-includes agents t)

includes_of_find :
    (agents : List Agent) (t : Text) (b : Agent)
    → find (λ a. get_agent_spiffeid (some a) === t) agents ≡ some b
    → includes (map (λ a. get_agent_spiffeid (some a)) agents) t ≡ true
includes_of_find [] t b h = cc
includes_of_find (a ∷ agents) t b h = ground (arith, includes_of_find agents t b)

select-later {ℓ} :
    {A : Type ℓ} (key : A → Text) (row : A → Selected) (id : Text) (xs : List A) (s : Selected)
    → All (λ x. key x ≢ id) xs
    → select key row id xs s ≡ s
unfolding select
select-later key row id [] s _ = refl
select-later key row id (x ∷ xs) s (h, hs) =
    ground (arith, ===_iff (key x) id, select-later key row id xs s hs)

-- The last match is what is selected.
select_last {ℓ} :
    {A : Type ℓ} (key : A → Text) (row : A → Selected) (before : List A) (a : A) (after : List A)
    (s : Selected)
    → All (λ x. key x ≢ key a) after
    → select key row (key a) (before ++ a ∷ after) s ≡ row a
unfolding select
select_last key row [] a after s h =
    ground (arith, ===_refl (key a), select-later key row (key a) after (row a) h)
select_last key row (x ∷ before) a after s h =
    select_last key row before a after (if key x === key a then row x else s) h

-- The details page shows the row of the last item with the ID of its address, for clusters by name,
-- for agents by SPIFFE ID and for entries by ID.
pub details_data_parse_last :
    (props : DetailProps) (cs cs2 : List Cluster) (c : Cluster) (bs bs2 : List Agent) (a : Agent)
    (es es2 : List Entry) (e : Entry)
    → props.global_clusters_list ≡ cs ++ c ∷ cs2
    → All (λ (x : Cluster). x.name ≢ c.name) cs2
    → props.global_agents_list ≡ bs ++ a ∷ bs2
    → All (λ x. get_agent_spiffeid (some x) ≢ get_agent_spiffeid (some a)) bs2
    → props.global_entries_list ≡ es ++ e ∷ es2
    → All (λ (x : Entry). x.id ≢ e.id) es2
    → (details_data_parse (codes "clusters") c.name props ≡ row_of_cluster props c)
      × (details_data_parse (codes "agents") (get_agent_spiffeid (some a)) props
          ≡ row_of_agent props a)
      × (details_data_parse (codes "entries") e.id props ≡ row_of_entry props e)
unfolding details_data_parse
details_data_parse_last props cs cs2 c bs bs2 a es es2 e hc nc ha na he ne = (
  ap (λ l. select (λ (x : Cluster). x.name) (row_of_cluster props) c.name l nothing) hc
      ∙ select_last (λ (x : Cluster). x.name) (row_of_cluster props) cs c cs2 nothing nc,
  ap
        (λ l.
          select (λ x. get_agent_spiffeid (some x)) (row_of_agent props)
            (get_agent_spiffeid (some a)) l nothing)
        ha
      ∙ select_last (λ x. get_agent_spiffeid (some x)) (row_of_agent props) bs a bs2 nothing na,
  ap (λ l. select (λ (x : Entry). x.id) (row_of_entry props) e.id l nothing) he
      ∙ select_last (λ (x : Entry). x.id) (row_of_entry props) es e es2 nothing ne,
)

canonical_of-or_parent :
    (parent : Text) (agents : List Agent) (m : Option Entry)
    → canonical_of parent agents m ≡ or_parent parent (canonical_of_parent parent agents m)
canonical_of-or_parent [] agents none = refl
canonical_of-or_parent (c ∷ parent) agents none = refl
canonical_of-or_parent parent agents (some e) = refl

or_parent_self : (parent : Text) → or_parent parent parent ≡ parent
or_parent_self [] = refl
or_parent_self (c ∷ parent) = refl

-- The agent that the dashboard names for an entry is the one whose selectors the form offers for
-- the entry's parent; where it names none, the form keeps the parent itself.
pub agent_of_parent-canonical_parent_id :
    (parent : Text) (agents : List Agent) (entries : List Entry)
    → agent_of_parent parent agents entries
      ≡ or_parent parent (canonical_parent_id parent agents entries)
unfolding canonical_parent_id agent_of_parent
agent_of_parent-canonical_parent_id parent agents entries =
    elim (Option-cases (find (λ a. get_agent_spiffeid (some a) === parent) agents)) [
      | inl e ↦
          rw (canonical_parent_id, e, find-includes agents parent e, head?-filter)
            (canonical_of-or_parent parent agents
              (find (λ n. get_entry_spiffeid (some n) === parent) entries))
      | inr (a, e) ↦
          rw (canonical_parent_id, e, includes_of_find agents parent a e)
            (sym (or_parent_self parent))
    ]
