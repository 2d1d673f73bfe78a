-- ===== src/Spiffe/Tests.antt =====
-- Tests of the helper, and instances of its theorems.
use mathlib.Core.List.{Memᴰ}
use tornjak.Prelude.{
  ◌≡◌, ◌↔◌, refl, true, false, none, some, List, [], ◌∷◌, ◌++◌, arith, count, if◌then◌else◌,
}
use tornjak.Js.{Text, codes, ◌===◌, includes}
use tornjak.Types.{SpiffeId, Selector, Agent, Entry}
use tornjak.Spiffe.Ids.{prefix, get_agent_spiffeid, check_spiffeid_validity}
use tornjak.Spiffe.Parse.{parse_spiffe_id, parse_spiffe_id_iff, IsPlain}
use tornjak.Spiffe.Selectors.{selector_set, format_selectors}
use tornjak.Spiffe.Association.{Dict, lookup, get_agent_entries, get_agents_entries, is_node_entry}
use tornjak.Spiffe.Association.OnePass.{ids, lookup-get_agents_entries_unique}
use tornjak.Spiffe.Association.Laws.{Covers, get_agent_entries_iff}
use tornjak.Spiffe.Children.{
  Property, undefined, without_map, IsOfArray, get_child_entries, children, child,
  get_child_entries-direct,
}
use tornjak.Spiffe.Count.{number_entries_of_agent, is_child, number_entries_of_agent-count}

abbrev id_of : Text → SpiffeId
id_of path = record { trust_domain = some (codes "e.org"); path = some path }

abbrev ns_a : Selector
ns_a = record { type = codes "k8s"; value = codes "ns:a" }

abbrev agent_with : Text → List Selector → Agent
agent_with path selectors = record {
  id = id_of path;
  attetstation_type = codes "k8s_psat";
  x509svid_serial_number = [];
  x509svid_expires_at = 100;
  selectors = some selectors;
  banned = false;
}

abbrev entry_with : Text → Text → List Selector → Entry
entry_with path parent selectors = record {
  id = path;
  spiffe_id = id_of path;
  parent_id = id_of parent;
  selectors = some selectors;
  jwt_svid_ttl = 0;
  x509_svid_ttl = 0;
  federates_with = [];
  admin = none;
  downstream = false;
  expires_at = none;
  dns_names = [];
  revision_number = 0;
  store_svid = false;
}

abbrev bare : Agent
bare = agent_with (codes "/bare") []

abbrev node : Agent
node = agent_with (codes "/node") (ns_a ∷ [])

abbrev pool : Entry
pool = entry_with (codes "/pool") (codes "/spire/server") (ns_a ∷ [])

abbrev work : Entry
work = entry_with (codes "/work") (codes "/pool") []

abbrev entries : List Entry
entries = pool ∷ work ∷ []

counted : number_entries_of_agent node entries ≡ 1
unfolding number_entries_of_agent
counted = refl

slashes :
    (check_spiffeid_validity (some (codes "e.org")) (some (codes "path")) ≡ false)
    × (check_spiffeid_validity (some (codes "e.org/")) (some (codes "path")) ≡ true)
    × (check_spiffeid_validity (some (codes "e.org")) none ≡ false)
unfolding check_spiffeid_validity
slashes = (refl, refl, refl)

parsed : parse_spiffe_id (codes "spiffe://e.org/a/b") ≡ (true, codes "e.org", codes "/a/b")
unfolding parse_spiffe_id
parsed = refl

refused :
    (parse_spiffe_id (codes "spiffe://e.org/") ≡ (false, [], []))
    × (parse_spiffe_id (codes "spiffe:///a") ≡ (false, [], []))
    × (parse_spiffe_id (codes "http://e.org/a") ≡ (false, [], []))
unfolding parse_spiffe_id
refused = (refl, refl, refl)

parse_spiffe_id_iff_example :
    (parse_spiffe_id (codes "spiffe://e.org/a") ≡ (true, codes "e.org", codes "/a")) ↔ (
      (codes "spiffe://e.org/a" ≡ prefix ++ (codes "e.org" ++ codes "/a"))
      × IsPlain (codes "e.org") (codes "/a"))
parse_spiffe_id_iff_example =
    parse_spiffe_id_iff (codes "spiffe://e.org/a") (codes "e.org") (codes "/a")

-- With a colon in the type two selectors may share a format.
same_format :
    format_selectors (record { type = codes "k8s:ns"; value = codes "a" }) ≡ format_selectors ns_a
unfolding format_selectors
same_format = refl

absent : includes (ids (bare ∷ [])) (get_agent_spiffeid (some node)) ≡ false
unfolding get_agent_spiffeid ◌===◌
absent = refl

lookup-get_agents_entries_unique_example :
    (d : Dict) × (get_agents_entries (some (bare ∷ node ∷ [])) (some entries) ≡ some d)
    × (lookup (get_agent_spiffeid (some node)) d ≡ some (get_agent_entries (some node) entries))
lookup-get_agents_entries_unique_example =
    lookup-get_agents_entries_unique (bare ∷ []) [] node absent refl entries

associated : get_agent_entries (some node) entries ≡ pool ∷ []
unfolding get_agent_entries
associated = refl

get_agent_entries_iff_example :
    Memᴰ pool (get_agent_entries (some node) entries)
    ↔ (Memᴰ pool entries × (is_node_entry pool ≡ true) × Covers node pool)
get_agent_entries_iff_example = get_agent_entries_iff node entries pool

bare_misses : ¬ Covers bare pool
unfolding selector_set ◌===◌
bare_misses h = ground (arith, h (codes "k8s:ns:a") refl)

number_entries_of_agent-count_example :
    number_entries_of_agent node entries ≡ count (is_child node entries) entries
number_entries_of_agent-count_example = number_entries_of_agent-count node entries

-- An array with its length.
abbrev property_of : List Entry → Text → Property
property_of es name = if name === codes "length" then without_map else undefined

property_of-IsOfArray : IsOfArray property_of
unfolding IsOfArray ◌===◌
property_of-IsOfArray es = (refl, λ rest. refl)

abbrev member : Entry
member = entry_with (codes "/member") (codes "/node") []

-- The agent has the entry `/pool`, which is missing.
get_child_entries-direct_example :
    get_child_entries property_of
      (codes "spiffe://e.org/node")
      (some (bare ∷ node ∷ []))
      (some (pool ∷ work ∷ member ∷ []))
    ≡ children (child member ∷ [])
unfolding get_child_entries
get_child_entries-direct_example =
    get_child_entries-direct property_of node (bare ∷ node ∷ []) (pool ∷ work ∷ member ∷ [])
      property_of-IsOfArray
