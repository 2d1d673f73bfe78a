-- ===== src/Store/Reducers.antt =====
-- frontend/src/redux/reducers/: one reducer for each slice of the store, and their combination.
use tornjak.Prelude.{pos, false, none, some, List, [], ◌∷◌}
use tornjak.Js.{codes}
use tornjak.Types.{TornjakServerInfo, DebugServerInfo}
use tornjak.Store.Actions.{
  Kind, Action, Payload, text, ServersReducerState, ClustersReducerState, FederationsReducerState,
  AgentsReducerState, EntriesReducerState, TornjakReducerState, AuthReducerState, is_authenticated,
  access_token, user_roles, agents_list, agents_workloadattestor_info, federations_list,
  clusters_list, cluster_type_info, entries_list, new_entries, entry_expiry, server_selected,
  server_info, tornjak_server_info, servers_list, selector_info, workload_selector_info,
  spire_health_check, spire_health_checking, spire_health_check_time, debug_server_info, message,
  clicked_dashboard_table,
}
use tornjak.Store.Data.{selectors, workload_selectors}

abbrev pub empty_info : TornjakServerInfo
empty_info = record {
  plugins = record {
    data_store = [];
    key_manager = [];
    node_attestor = [];
    node_resolver = [];
    notifier = [];
  };
  trust_domain = [];
  verbose_config = [];
}

abbrev empty_debug_info : DebugServerInfo
empty_debug_info = record {
  first_svid = record {
    id = record { trust_domain = some []; path = some [] };
    expires_at = 0;
    subject = [];
  };
  second_svid = record {
    id = record { trust_domain = some []; path = none };
    expires_at = 0;
    subject = [];
  };
  uptime = 0;
  federated_bundles_count = 0;
}

abbrev initial_servers : ServersReducerState
initial_servers = record {
  global_server_selected = [];
  global_server_info = record { trust_domain = []; node_attestor_plugin = [] };
  global_tornjak_server_info = empty_info;
  global_servers_list = [];
  global_selector_info = selectors;
  global_workload_selector_info = workload_selectors;
  global_spire_health_check = false;
  global_spire_health_checking = false;
  global_spire_health_time = record {
    spire_healt_check_time = 120;
    spire_health_check_freq_display = codes "2 Mins";
  };
  global_debug_server_info = empty_debug_info;
}

unfoldable pub servers_reducer : ServersReducerState → (k : Kind) → Payload k → ServersReducerState
servers_reducer state server_selected payload = record state { global_server_selected = payload }
servers_reducer state server_info payload = record state { global_server_info = payload }
servers_reducer state tornjak_server_info payload = record state {
  global_tornjak_server_info = payload;
}
servers_reducer state servers_list payload = record state { global_servers_list = payload }
servers_reducer state selector_info payload = record state { global_selector_info = payload }
servers_reducer state workload_selector_info payload = record state {
  global_workload_selector_info = payload;
}
servers_reducer state spire_health_check payload = record state {
  global_spire_health_check = payload;
}
servers_reducer state spire_health_checking payload = record state {
  global_spire_health_checking = payload;
}
servers_reducer state spire_health_check_time payload = record state {
  global_spire_health_time = payload;
}
servers_reducer state debug_server_info payload = record state {
  global_debug_server_info = payload;
}
servers_reducer state _ payload = state

abbrev initial_clusters : ClustersReducerState
initial_clusters = record { global_clusters_list = some []; global_cluster_type_info = [] }

unfoldable pub clusters_reducer :
    ClustersReducerState → (k : Kind) → Payload k → ClustersReducerState
clusters_reducer state clusters_list payload = record state { global_clusters_list = payload }
clusters_reducer state cluster_type_info payload = record state {
  global_cluster_type_info = payload;
}
clusters_reducer state _ payload = state

abbrev initial_federations : FederationsReducerState
initial_federations = record { global_federations_list = [] }

unfoldable pub federations_reducer :
    FederationsReducerState → (k : Kind) → Payload k → FederationsReducerState
federations_reducer state federations_list payload = record state {
  global_federations_list = payload;
}
federations_reducer state _ payload = state

abbrev initial_agents : AgentsReducerState
initial_agents = record { global_agents_list = []; global_agents_work_load_attestor_info = some [] }

unfoldable pub agents_reducer : AgentsReducerState → (k : Kind) → Payload k → AgentsReducerState
agents_reducer state agents_list payload = record state { global_agents_list = payload }
agents_reducer state agents_workloadattestor_info payload = record state {
  global_agents_work_load_attestor_info = payload;
}
agents_reducer state _ payload = state

abbrev initial_entries : EntriesReducerState
initial_entries = record {
  global_entries_list = [];
  global_new_entries = [];
  global_entry_expiry_time = some (pos 0);
}

unfoldable pub entries_reducer : EntriesReducerState → (k : Kind) → Payload k → EntriesReducerState
entries_reducer state entries_list payload = record state { global_entries_list = payload }
entries_reducer state new_entries payload = record state { global_new_entries = payload }
entries_reducer state entry_expiry payload = record state { global_entry_expiry_time = payload }
entries_reducer state _ payload = state

abbrev initial_tornjak : TornjakReducerState
initial_tornjak = record { global_error_message = text []; global_clicked_dashboard_table = [] }

unfoldable pub tornjak_reducer : TornjakReducerState → (k : Kind) → Payload k → TornjakReducerState
tornjak_reducer state message payload = record state { global_error_message = payload }
tornjak_reducer state clicked_dashboard_table payload = record state {
  global_clicked_dashboard_table = payload;
}
tornjak_reducer state _ payload = state

abbrev initial_auth : AuthReducerState
initial_auth = record {
  global_is_authenticated = false;
  global_access_token = some [];
  global_user_roles = [];
}

unfoldable pub auth_reducer : AuthReducerState → (k : Kind) → Payload k → AuthReducerState
auth_reducer state is_authenticated payload = record state { global_is_authenticated = payload }
auth_reducer state access_token payload = record state { global_access_token = payload }
auth_reducer state user_roles payload = record state { global_user_roles = payload }
auth_reducer state _ payload = state

-- `combineReducers`
pub record RootState : Type 0 where
  pub servers : ServersReducerState
  pub clusters : ClustersReducerState
  pub federations : FederationsReducerState
  pub agents : AgentsReducerState
  pub entries : EntriesReducerState
  pub tornjak : TornjakReducerState
  pub auth : AuthReducerState

abbrev pub initial_state : RootState
initial_state = record {
  servers = initial_servers;
  clusters = initial_clusters;
  federations = initial_federations;
  agents = initial_agents;
  entries = initial_entries;
  tornjak = initial_tornjak;
  auth = initial_auth;
}

unfoldable pub all_reducers : RootState → Action → RootState
unfolding servers_reducer clusters_reducer federations_reducer agents_reducer entries_reducer
    tornjak_reducer auth_reducer
all_reducers state action = record {
  servers = servers_reducer state.servers action.type action.payload;
  clusters = clusters_reducer state.clusters action.type action.payload;
  federations = federations_reducer state.federations action.type action.payload;
  agents = agents_reducer state.agents action.type action.payload;
  entries = entries_reducer state.entries action.type action.payload;
  tornjak = tornjak_reducer state.tornjak action.type action.payload;
  auth = auth_reducer state.auth action.type action.payload;
}

-- A sequence of dispatches.
unfoldable pub dispatch_all : RootState → List Action → RootState
unfolding all_reducers
dispatch_all state [] = state
dispatch_all state (a ∷ actions) = dispatch_all (all_reducers state a) actions
