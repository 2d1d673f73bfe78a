-- ===== src/EntryCreate/Tests.antt =====
-- Tests of the form, and instances of its theorems.
use mathlib.Core.Option
use tornjak.Prelude.{
  ◌&&◌, if◌then◌else◌, pos, ◌≡◌, ◌≢◌, ◌↔◌, ◌⊎◌, refl, true, false, none, some, List, [], ◌∷◌, ◌++◌,
  map, arith, length,
}
use tornjak.Js.{codes, ◌===◌, join, trim, make_set}
use tornjak.Types.{Selector, Agent, Entry}
use tornjak.Config.{Env, get_api_server_uri, is_manager, api_endpoint}
use tornjak.Spiffe.Ids.{spiffeid_text, get_agent_spiffeid, get_entry_spiffeid}
use tornjak.Spiffe.Parse.{parse_spiffe_id}
use tornjak.Spiffe.Selectors.{format_selectors}
use tornjak.Spiffe.Association.{is_assoc, get_agent_entries}
use tornjak.EntryCreate.State.{State, initial, Props, NewEntry}
use tornjak.EntryCreate.Handlers.{on_change_parent_id, on_input_spiffe_id, on_change_selectors}
use tornjak.EntryCreate.ParentIds.{prepare_parent_id_agents_list, fixed_parents}
use tornjak.EntryCreate.ParentIds.Laws.{prepare_parent_id_agents_list-with_entries, with_entries}
use tornjak.EntryCreate.Submit.{
  on_submit, new_entry, comma_list, parse_selector, get_api_entry_create_endpoint,
}
use tornjak.EntryCreate.Submit.Laws.{on_submit_iff, IsReady}
use tornjak.EntryCreate.Submit.Answers.{KeepsWords, on_submit_toasts}
use tornjak.EntryCreate.Submit.Typed.{on_change_selectors_typed, IsTypable, newline}
use tornjak.EntryCreate.LifeCycle.{Changed, component_did_update}
use tornjak.EntryCreate.Fresh.{IsLoaded, After, component_did_update-After}
use tornjak.EntryCreate.Machine.{
  Reach, start, next, parent_id, spiffe_id, selectors, on_submit_faithful,
}

abbrev joined : Env
joined = record {
  api_server_uri = some (codes "http://localhost:10000");
  tornjak_manager = none;
  api_version = codes "v1";
  auth_server_uri = none;
  urljoin = λ a b. a ++ (b'/' ∷ b);
}

abbrev agent : Agent
agent = record {
  id = record { trust_domain = some (codes "e.org"); path = some (codes "/agent") };
  attetstation_type = codes "k8s_psat";
  x509svid_serial_number = [];
  x509svid_expires_at = 100;
  selectors = some (record { type = codes "k8s"; value = codes "ns:a" } ∷ []);
  banned = false;
}

abbrev node_entry : Entry
node_entry = record {
  id = codes "1";
  spiffe_id = record { trust_domain = some (codes "e.org"); path = some (codes "/node") };
  parent_id = record { trust_domain = some (codes "e.org"); path = some (codes "/spire/server") };
  selectors = some (record { type = codes "k8s"; value = codes "ns:a" } ∷ []);
  jwt_svid_ttl = 0;
  x509_svid_ttl = 0;
  federates_with = [];
  admin = none;
  downstream = false;
  expires_at = none;
  dns_names = [];
  revision_number = 0;
  store_svid = false;
}

abbrev props : Props
props = record {
  env = joined;
  global_debug_server_info = some (some (codes "e.org"));
  server_trust_domain = codes "e.org";
  node_attestor_plugin = codes "k8s_psat";
  global_agents_list = some (agent ∷ []);
  global_entries_list = some (node_entry ∷ []);
  global_selector_info = (codes "k8s_psat", codes "k8s_psat:cluster" ∷ []) ∷ [];
  global_workload_selector_info = [];
  global_agents_work_load_attestor_info = some [];
  global_new_entries = none;
  global_entry_expiry_time = some (pos 0);
  global_server_selected = [];
}

-- The form after a parent was chosen, an ID typed behind the prefix, and two selectors typed.
abbrev parent_chosen : State
parent_chosen = on_change_parent_id (codes "spiffe://e.org/spire/server") initial

abbrev id_typed : State
id_typed = on_input_spiffe_id (codes "spiffe://e.org/web") parent_chosen

abbrev filled : State
filled = on_change_selectors (codes "unix:uid:1000\nk8s:ns:web") id_typed

filled-Reach : Reach filled
filled-Reach =
    next {props = props} {s = id_typed}
      (next {props = props} {s = parent_chosen}
        (next {props = props} {s = initial} start (parent_id (codes "spiffe://e.org/spire/server")))
        (spiffe_id (codes "spiffe://e.org/web")))
      (selectors (codes "unix:uid:1000\nk8s:ns:web"))

filled_sent :
    (on_submit props filled).request
    ≡ some ((get_api_entry_create_endpoint props filled).1, new_entry props filled ∷ [])
unfolding on_submit new_entry get_api_entry_create_endpoint is_manager get_api_server_uri
    api_endpoint parse_spiffe_id on_change_selectors on_input_spiffe_id on_change_parent_id initial
    ◌===◌
filled_sent = refl

filled_ids :
    (filled.spiffe_id_trust_domain ≡ codes "e.org")
    × (filled.spiffe_id_path ≡ codes "/web")
    × ((get_api_entry_create_endpoint props filled).1
        ≡ codes "http://localhost:10000//api/v1/spire/entries")
unfolding get_api_entry_create_endpoint is_manager get_api_server_uri api_endpoint parse_spiffe_id
    on_change_selectors on_input_spiffe_id on_change_parent_id initial ◌===◌
filled_ids = (refl, refl, refl)

on_submit_faithful_example :
    (e : NewEntry) × ((new_entry props filled ∷ []) ≡ e ∷ [])
    × (spiffeid_text e.spiffe_id ≡ filled.spiffe_id)
    × (spiffeid_text e.parent_id ≡ filled.parent_id)
    × (map (Option.map format_selectors) e.selectors ≡ map some (comma_list filled.selectors))
on_submit_faithful_example =
    on_submit_faithful props filled (get_api_entry_create_endpoint props filled).1
      (new_entry props filled ∷ []) filled-Reach filled_sent

on_submit_iff_example :
    ((on_submit props filled).request
      ≡ some ((get_api_entry_create_endpoint props filled).1, new_entry props filled ∷ []))
    ↔ (IsReady props filled
        × ((get_api_entry_create_endpoint props filled).1
            ≡ (get_api_entry_create_endpoint props filled).1)
        × (◌≡◌ {A = List NewEntry} (new_entry props filled ∷ []) (new_entry props filled ∷ [])))
on_submit_iff_example =
    on_submit_iff props filled (get_api_entry_create_endpoint props filled).1
      (new_entry props filled ∷ [])

joined-KeepsWords : KeepsWords props.env.urljoin
unfolding KeepsWords
joined-KeepsWords [] b h = λ e. cc
joined-KeepsWords (x ∷ a) b h = λ e. cc

on_submit_toasts_example :
    ((on_submit props filled).toasts ≡ []) × ((on_submit props filled).request ≢ none)
    ⊎ (length (on_submit props filled).toasts ≡ 1) × ((on_submit props filled).request ≡ none)
on_submit_toasts_example = on_submit_toasts props filled joined-KeepsWords

prepare_parent_id_agents_list-with_entries_example :
    (t : State) × (prepare_parent_id_agents_list props initial ≡ some t)
    × (t.agents_id_list
        ≡ fixed_parents props initial ++ with_entries (node_entry ∷ []) (agent ∷ []))
    × (t.agents_id_list ≡ initial.parent_id_manual_entry_option ∷ t.agents_id_list_no_manual_option)
prepare_parent_id_agents_list-with_entries_example =
    prepare_parent_id_agents_list-with_entries props initial (codes "e.org") (agent ∷ [])
      (node_entry ∷ []) refl refl refl (refl, tt)

offered_entries :
    with_entries (node_entry ∷ []) (agent ∷ [])
    ≡ codes "spiffe://e.org/agent" ∷ codes "spiffe://e.org/node" ∷ []
unfolding with_entries get_agent_entries get_agent_spiffeid get_entry_spiffeid is_assoc make_set
    ◌===◌
offered_entries = refl

abbrev uid : Selector
uid = record { type = codes "unix"; value = codes "uid:1000" }

uid-IsTypable : IsTypable uid
unfolding format_selectors trim
uid-IsTypable = record {
  typed = cc;
  no_colon = ground arith;
  no_comma = ground arith;
  no_newline = ground arith;
  trimmed = refl;
}

on_change_selectors_typed_example :
    map parse_selector (
      comma_list
        (on_change_selectors
          (join (map format_selectors (uid ∷ uid ∷ [])) newline)
          initial).selectors)
    ≡ map some (uid ∷ uid ∷ [])
on_change_selectors_typed_example =
    on_change_selectors_typed initial uid (uid ∷ []) (uid-IsTypable, (uid-IsTypable, tt))

-- The lists of agents and entries came after the parent was chosen.
abbrev lists_changed : Changed
lists_changed = record {
  server = false;
  debug_info = false;
  agents = true;
  entries = true;
  parent = true;
}

abbrev updated : State
updated = record parent_chosen {
  agents_id_list =
      parent_chosen.parent_id_manual_entry_option
      ∷ codes "spiffe://e.org/spire/server"
      ∷ codes "spiffe://e.org/agent"
      ∷ codes "spiffe://e.org/node"
      ∷ [];
  agents_id_list_no_manual_option =
      codes "spiffe://e.org/spire/server"
      ∷ codes "spiffe://e.org/agent"
      ∷ codes "spiffe://e.org/node"
      ∷ [];
  selectors_list = some (codes "k8s_psat:cluster" ∷ []);
}

parents_and_selectors : component_did_update lists_changed props parent_chosen ≡ some updated
unfolding component_did_update parse_spiffe_id on_change_parent_id initial
    tornjak.EntryCreate.ParentIds.list_agents tornjak.Spiffe.Association.get_agents_entries
    tornjak.EntryCreate.SelectorsList.labels tornjak.EntryCreate.SelectorsList.offer_for_server
parents_and_selectors = refl

props-IsLoaded : IsLoaded props (codes "e.org") (agent ∷ []) (node_entry ∷ []) []
props-IsLoaded = record {
  debug = refl;
  has_agents = refl;
  has_entries = refl;
  has_infos = refl;
  distinct = (refl, tt);
}

component_did_update-After_example :
    (t : State) × (component_did_update lists_changed props parent_chosen ≡ some t)
    × After props
        (agent ∷ [])
        (node_entry ∷ [])
        parent_chosen
        (if is_manager props.env && lists_changed.server
          then props.global_server_selected
          else parent_chosen.selected_server)
        true
        true
        t
component_did_update-After_example =
    component_did_update-After props (codes "e.org") (agent ∷ []) (node_entry ∷ []) []
      props-IsLoaded lists_changed parent_chosen
