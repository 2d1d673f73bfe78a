-- ===== src/Spiffe/Association/Laws.antt =====
-- What `getAgentEntries` and `getCanonicalAgentSpiffeid` find.
use mathlib.Core.List.{Memᴰ}
use tornjak.Prelude.{
  ◌≡◌, ◌↔◌, true, false, some, List, [], ◌∷◌, ◌++◌, All, head?-filter, Bool-cases, inl, inr,
  find-append, find-none, Memᴰ-filter, Memᴰ_of_filter,
}
use tornjak.Js.{Text, includes}
use tornjak.Types.{Agent, Entry}
use tornjak.Spiffe.Ids.{get_agent_spiffeid}
use tornjak.Spiffe.Selectors.{is_superset_iff, selector_set}
use tornjak.Spiffe.Association.{
  is_node_entry, is_assoc, get_agent_entries, get_canonical_agent_spiffeid,
}

-- The agent has every selector of the entry.
abbrev pub Covers : Agent → Entry → Type 0
Covers a e =
    (t : Text)
    → includes (selector_set e.selectors) t ≡ true
    → includes (selector_set a.selectors) t ≡ true

pub is_assoc_iff :
    (a : Agent) (e : Entry) → (is_assoc (selector_set a.selectors) e ≡ true) ↔ Covers a e
unfolding is_assoc
is_assoc_iff a e = is_superset_iff _ _

-- The entries of an agent are the given entries below the server whose selectors it all has.
pub get_agent_entries_iff :
    (a : Agent) (entries : List Entry) (e : Entry)
    → Memᴰ e (get_agent_entries (some a) entries)
      ↔ (Memᴰ e entries × (is_node_entry e ≡ true) × Covers a e)
unfolding get_agent_entries
get_agent_entries_iff a entries e = (
  λ m.
      let (k, assoc) = Memᴰ_of_filter _ _ m in
      let (l, node) = Memᴰ_of_filter _ entries k in (l, node, (is_assoc_iff a e).0 assoc),
  λ (m, node, covers).
      Memᴰ-filter _ _ (Memᴰ-filter is_node_entry entries m node) ((is_assoc_iff a e).1 covers),
)

not_assoc : (e : Entry) (a : Agent) → ¬ Covers a e → is_assoc (selector_set a.selectors) e ≡ false
not_assoc e a h = elim (Bool-cases (is_assoc (selector_set a.selectors) e)) [
  | inl yes_ ↦ absurd (h ((is_assoc_iff a e).0 yes_))
  | inr no_ ↦ no_
]

All-not_assoc :
    (e : Entry) (agents : List Agent)
    → All (λ b. ¬ Covers b e) agents
    → All (λ b. is_assoc (selector_set b.selectors) e ≡ false) agents
All-not_assoc e [] _ = tt
All-not_assoc e (a ∷ agents) (h, hs) = (not_assoc e a h, All-not_assoc e agents hs)

-- The canonical agent of an entry is the first that has all selectors of the entry.
pub get_canonical_agent_spiffeid_first :
    (e : Entry) (before after : List Agent) (a : Agent)
    → All (λ b. ¬ Covers b e) before
    → Covers a e
    → get_canonical_agent_spiffeid e (before ++ a ∷ after) ≡ get_agent_spiffeid (some a)
unfolding get_canonical_agent_spiffeid
get_canonical_agent_spiffeid_first e before after a misses covers = rw (
  head?-filter,
  find-append (λ b. is_assoc (selector_set b.selectors) e) before a after
      (All-not_assoc e before misses) ((is_assoc_iff a e).1 covers),
)

pub get_canonical_agent_spiffeid_none :
    (e : Entry) (agents : List Agent)
    → All (λ b. ¬ Covers b e) agents
    → get_canonical_agent_spiffeid e agents ≡ []
unfolding get_canonical_agent_spiffeid
get_canonical_agent_spiffeid_none e agents misses =
    rw (head?-filter, find-none _ agents (All-not_assoc e agents misses))
