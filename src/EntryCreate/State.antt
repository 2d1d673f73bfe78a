-- ===== src/EntryCreate/State.antt =====
-- The state of the form, and what it sends.
use tornjak.Prelude.{ℤ, ℕ, Bool, false, Option, some, List, []}
use tornjak.Js.{Text, codes}
use tornjak.Types.{SpiffeId, Selector, Agent, Entry, AttestorInfo, SelectorInfo}
use tornjak.Config.{Env}

pub record State : Type 0 where
  pub spiffe_id : Text
  pub spiffe_id_trust_domain : Text
  pub spiffe_id_path : Text
  pub parent_id : Text
  pub parent_id_trust_domain : Text
  pub parent_id_path : Text
  pub selectors : Text
  pub selectors_recommendation_list : Text
  pub admin_flag : Bool
  pub jwt_svid_ttl : ℕ
  pub x509_svid_ttl : ℕ
  pub expires_at : ℕ
  pub dns_names : Text
  pub federates_with : Text
  pub downstream : Bool
  pub message : Text
  pub status_ok : Text
  pub success_json_messege : Text
  pub selected_server : Text
  pub agents_id_list : List Text
  pub agents_id_list_no_manual_option : List Text
  pub spiffe_id_prefix : Text
  pub parent_id_manual_entry_option : Text
  pub parent_id_manual_entry : Bool
  pub selectors_list : Option (List Text)
  pub selectors_list_display : Text

abbrev pub manual_option : Text
manual_option = codes "----Select this option and Enter Custom Parent ID Below----"

unfoldable pub initial : State
initial = record {
  spiffe_id = [];
  spiffe_id_trust_domain = [];
  spiffe_id_path = [];
  parent_id = [];
  parent_id_trust_domain = [];
  parent_id_path = [];
  selectors = [];
  selectors_recommendation_list = [];
  admin_flag = false;
  jwt_svid_ttl = 0;
  x509_svid_ttl = 0;
  expires_at = 0;
  dns_names = [];
  federates_with = [];
  downstream = false;
  message = [];
  status_ok = [];
  success_json_messege = [];
  selected_server = [];
  agents_id_list = [];
  agents_id_list_no_manual_option = [];
  spiffe_id_prefix = [];
  parent_id_manual_entry_option = manual_option;
  parent_id_manual_entry = false;
  selectors_list = some [];
  selectors_list_display = codes "Select Selectors";
}

-- An entry as the form sends it.
pub record NewEntry : Type 0 where
  pub spiffe_id : SpiffeId
  pub parent_id : SpiffeId
  pub selectors : List (Option Selector)
  pub admin : Bool
  pub x509_svid_ttl : ℕ
  pub jwt_svid_ttl : ℕ
  pub expires_at : Option ℤ
  pub downstream : Bool
  pub federates_with : List Text
  pub dns_names : List Text

-- The properties that the form reads from the store. `global_debug_server_info` is `undefined`
-- (`none`), an object with no keys (`some none`), or one with the trust domain of its first SVID.
pub record Props : Type 0 where
  pub env : Env
  pub global_debug_server_info : Option (Option Text)
  pub server_trust_domain : Text
  pub node_attestor_plugin : Text
  pub global_agents_list : Option (List Agent)
  pub global_entries_list : Option (List Entry)
  pub global_selector_info : SelectorInfo
  pub global_workload_selector_info : SelectorInfo
  pub global_agents_work_load_attestor_info : Option (List AttestorInfo)
  pub global_new_entries : Option (List Entry)
  pub global_entry_expiry_time : Option ℤ
  pub global_server_selected : Text
