-- ===== src/Store/Actions.antt =====
-- frontend/src/redux/actions/types.ts and redux/actions/index.ts: the states of the reducers and the
-- actions. Each function of index.ts dispatches one action, which is a constructor here.
-- The time at which an entry expires is whole seconds, `none` for NaN. Two lists are `undefined` (`none`) after an answer that lacks them.
use tornjak.Prelude.{ℤ, Bool, Option, List}
use tornjak.Js.{Text}
use tornjak.Types.{
  Agent, AttestorInfo, Cluster, Entry, Server, ServerInfo, TornjakServerInfo, DebugServerInfo,
  SpireHealthCheckFreq, Federation, SelectorInfo,
}

-- The error of a failed request: its `message`, what it prints as, and the data of the answer if
-- there was one.
pub record Failure : Type 0 where
  pub message : Text
  pub shown : Text
  pub response_data : Option Text

-- A message is a text by its type; one caller passes the error itself.
pub data Message : Type 0 where
  text : Text → Message
  failure : Failure → Message

pub record ServersReducerState : Type 0 where
  pub global_server_selected : Text
  pub global_server_info : ServerInfo
  pub global_tornjak_server_info : TornjakServerInfo
  pub global_servers_list : List Server
  pub global_selector_info : SelectorInfo
  pub global_workload_selector_info : SelectorInfo
  pub global_spire_health_check : Bool
  pub global_spire_health_checking : Bool
  pub global_spire_health_time : SpireHealthCheckFreq
  pub global_debug_server_info : DebugServerInfo

pub record ClustersReducerState : Type 0 where
  pub global_clusters_list : Option (List Cluster)
  pub global_cluster_type_info : List Text

pub record FederationsReducerState : Type 0 where
  pub global_federations_list : List Federation

pub record AgentsReducerState : Type 0 where
  pub global_agents_list : List Agent
  pub global_agents_work_load_attestor_info : Option (List AttestorInfo)

pub record EntriesReducerState : Type 0 where
  pub global_entries_list : List Entry
  pub global_new_entries : List Entry
  pub global_entry_expiry_time : Option ℤ

pub record TornjakReducerState : Type 0 where
  pub global_error_message : Message
  pub global_clicked_dashboard_table : Text

pub record AuthReducerState : Type 0 where
  pub global_is_authenticated : Bool
  pub global_access_token : Option Text
  pub global_user_roles : List Text

-- The types of the actions.
pub data Kind : Type 0 where
  is_authenticated : Kind
  access_token : Kind
  user_roles : Kind
  agents_list : Kind
  agents_workloadattestor_info : Kind
  federations_list : Kind
  clusters_list : Kind
  cluster_type_info : Kind
  entries_list : Kind
  new_entries : Kind
  entry_expiry : Kind
  server_selected : Kind
  server_info : Kind
  tornjak_server_info : Kind
  servers_list : Kind
  selector_info : Kind
  workload_selector_info : Kind
  spire_health_check : Kind
  spire_health_checking : Kind
  spire_health_check_time : Kind
  debug_server_info : Kind
  message : Kind
  clicked_dashboard_table : Kind

pub Kind-discrete : Discrete Kind
Kind-discrete = hlevel

-- The payload that an action of each type carries.
abbrev pub Payload : Kind → Type 0
Payload is_authenticated = Bool
Payload access_token = Option Text
Payload user_roles = List Text
Payload agents_list = List Agent
Payload agents_workloadattestor_info = Option (List AttestorInfo)
Payload federations_list = List Federation
Payload clusters_list = Option (List Cluster)
Payload cluster_type_info = List Text
Payload entries_list = List Entry
Payload new_entries = List Entry
Payload entry_expiry = Option ℤ
Payload server_selected = Text
Payload server_info = ServerInfo
Payload tornjak_server_info = TornjakServerInfo
Payload servers_list = List Server
Payload selector_info = SelectorInfo
Payload workload_selector_info = SelectorInfo
Payload spire_health_check = Bool
Payload spire_health_checking = Bool
Payload spire_health_check_time = SpireHealthCheckFreq
Payload debug_server_info = DebugServerInfo
Payload message = Message
Payload clicked_dashboard_table = Text

pub record Action : Type 0 where
  pub type : Kind
  pub payload : Payload type
