-- ===== src/EntryExpiry/SentTests.antt =====
-- Tests of the expiry time of requests, and instances of the theorems on it.
use tornjak.Prelude.{◌≡◌, refl, true, false, none, some, pos, ℤ, Option, List, [], ◌∷◌, ◌++◌, All}
use tornjak.Js.{Text, codes, ◌===◌}
use tornjak.Config.{Env, get_api_server_uri, is_manager, api_endpoint}
use tornjak.Spiffe.Parse.{parse_spiffe_id}
use tornjak.Store.Reducers.{RootState, initial_state}
use tornjak.EntryCreate.State.{State, Props, NewEntry}
use tornjak.EntryCreate.State
use tornjak.EntryCreate.Submit.{on_submit, new_entry, get_api_entry_create_endpoint}
use tornjak.EntryExpiry.Form.{
  initial, on_change_expires_at_seconds, on_change_expiry_option, expiry_time_update,
  is_valid_expiry_time,
}
use tornjak.EntryExpiry.Form
use tornjak.EntryExpiry.Safety.{IsSafe}
use tornjak.EntryExpiry.HandOver.{component_did_update, Run, mount, update, option, typed}
use tornjak.EntryExpiry.Sent.{with_expiry, on_submit-Run, on_submit-IsSafe}

abbrev joined : Env
joined = record {
  api_server_uri = some (codes "http://localhost:10000");
  tornjak_manager = none;
  api_version = codes "v1";
  auth_server_uri = none;
  urljoin = λ a b. a ++ (b'/' ∷ b);
}

abbrev props : Props
props = record {
  env = joined;
  global_debug_server_info = none;
  server_trust_domain = codes "e.org";
  node_attestor_plugin = codes "k8s_psat";
  global_agents_list = none;
  global_entries_list = none;
  global_selector_info = [];
  global_workload_selector_info = [];
  global_agents_work_load_attestor_info = none;
  global_new_entries = none;
  global_entry_expiry_time = none;
  global_server_selected = [];
}

abbrev filled : State
filled = record State.initial {
  spiffe_id = codes "spiffe://e.org/web";
  spiffe_id_trust_domain = codes "e.org";
  spiffe_id_path = codes "/web";
  parent_id = codes "spiffe://e.org/node";
  parent_id_trust_domain = codes "e.org";
  parent_id_path = codes "/node";
  selectors = codes "unix:uid:0";
}

abbrev no_date : Text → Option ℤ
no_date t = none

-- The store after an earlier visit, in which 77 was typed.
abbrev visited : RootState
visited = record initial_state {
  entries = record initial_state.entries { global_entry_expiry_time = some (pos 77) };
}

abbrev opened : Form.State
opened = on_change_expiry_option (codes "Seconds Since Epoch") initial

abbrev chosen : Form.State
chosen = on_change_expires_at_seconds (some (pos 1700000000)) opened

abbrev handed : RootState
handed = component_did_update chosen (component_did_update opened visited)

chosen-Run : Run no_date visited true chosen handed
chosen-Run =
    update {s = opened} (update {s = initial} mount (option (codes "Seconds Since Epoch")))
      (typed (some (pos 1700000000)))

-- The request of the form over a store.
abbrev sent_over : RootState → List NewEntry
sent_over store = new_entry (with_expiry store props) filled ∷ []

abbrev address : Text
address = codes "http://localhost:10000//api/v1/spire/entries"

request_over :
    (store : RootState)
    → (on_submit (with_expiry store props) filled).request ≡ some (address, sent_over store)
unfolding on_submit new_entry get_api_entry_create_endpoint is_manager get_api_server_uri
    api_endpoint parse_spiffe_id State.initial ◌===◌
request_over store = refl

-- The choice says that there is no expiry, and the entry expires at 77.
on_submit-Run_example : All (λ (e : NewEntry). e.expires_at ≡ some (pos 77)) (sent_over visited)
on_submit-Run_example =
    on_submit-Run no_date visited false initial visited props filled address (sent_over visited)
      mount (request_over visited)

chosen_safe : chosen.expiry_unsafe ≡ false
unfolding on_change_expires_at_seconds
chosen_safe = refl

on_submit-IsSafe_example : All (λ (e : NewEntry). IsSafe e.expires_at) (sent_over handed)
on_submit-IsSafe_example =
    on_submit-IsSafe no_date visited chosen handed props filled address (sent_over handed)
      chosen-Run chosen_safe (request_over handed)
