-- ===== src/ClusterCreate/Tests.antt =====
-- Tests of the form, and instances of its theorems.
use tornjak.Prelude.{◌≡◌, ◌≢◌, refl, none, some, [], ◌++◌}
use tornjak.Js.{Text, codes}
use tornjak.Config.{Env}
use tornjak.ClusterCreate.Form.{
  State, initial, type_option, new_cluster, on_change_cluster_name, on_change_cluster_type,
  on_change_manual_cluster_type, on_submit,
}
use tornjak.ClusterCreate.Machine.{Reach, start, next, name, type, manual_type, sent_type_ne_option}

abbrev joined : Env
joined = record {
  api_server_uri = none;
  tornjak_manager = none;
  api_version = codes "v1";
  auth_server_uri = none;
  urljoin = λ a b. a ++ b;
}

abbrev option_chosen : State
option_chosen =
    on_change_cluster_type (some type_option)
      (on_change_cluster_name (some (codes "edge")) (initial []))

abbrev filled : State
filled = on_change_manual_cluster_type (some (codes "VMs")) option_chosen

-- The text of the option is refused as a type.
option_refused : (on_submit joined option_chosen).request ≡ none
unfolding on_submit on_change_cluster_name on_change_cluster_type initial
option_refused = refl

filled-Reach : Reach joined [] filled
unfolding on_change_cluster_name on_change_cluster_type initial
filled-Reach =
    next {s = option_chosen}
      (next {s = on_change_cluster_name (some (codes "edge")) (initial [])}
        (next {s = initial []} start (name (some (codes "edge")))) (type (some type_option)))
      (manual_type (some (codes "VMs")) refl)

abbrev address : Text
address = codes "//api/v1/tornjak/clusters"

filled_sent : (on_submit joined filled).request ≡ some (address, new_cluster filled)
unfolding on_submit on_change_cluster_name on_change_cluster_type on_change_manual_cluster_type
    initial
filled_sent = refl

sent_type_ne_option_example :
    ((new_cluster filled).platform_type ≢ []) × ((new_cluster filled).platform_type ≢ type_option)
sent_type_ne_option_example =
    sent_type_ne_option joined [] filled address (new_cluster filled) filled-Reach filled_sent
