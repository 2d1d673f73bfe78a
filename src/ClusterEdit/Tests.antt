-- ===== src/ClusterEdit/Tests.antt =====
-- Tests of the form, and instances of its theorems.
use tornjak.Prelude.{◌≡◌, ◌≢◌, refl, true, none, some, [], ◌∷◌, ◌++◌, inl, if◌then◌else◌}
use tornjak.Js.{Text, codes, ◌===◌}
use tornjak.Types.{Cluster}
use tornjak.Config.{Env, is_manager}
use tornjak.Api.Calls.{resolved}
use tornjak.Api.Delete.{local_cluster_delete}
use tornjak.ClusterEdit.Form.{
  State, initial, on_change_cluster_name_list, on_change_manual_cluster_type,
  get_api_entry_create_endpoint, on_submit, delete_cluster, requested, told_after, error_deleting,
}
use tornjak.ClusterEdit.Machine.{
  Reach, start, next, choose, same_cluster, told_of, sent_edit_known,
  on_submit-on_change_cluster_name_list, delete_cluster-told,
}

abbrev local : Env
local = record {
  api_server_uri = none;
  tornjak_manager = none;
  api_version = codes "v1";
  auth_server_uri = none;
  urljoin = λ a b. a ++ b;
}

abbrev edge : Cluster
edge = record {
  name = codes "edge";
  edited_name = [];
  creation_time = [];
  domain_name = codes "e.org";
  managed_by = codes "ops";
  platform_type = codes "VMs";
  agents_list = codes "spiffe://e.org/a" ∷ [];
}

abbrev chosen : State
chosen = on_change_cluster_name_list (some (edge ∷ [])) (some (codes "edge")) initial

abbrev address : Text
address = codes "//api/v1/tornjak/clusters"

-- An empty type of one's own is sent, though the form's message says that a type cannot be empty.
empty_type_sent :
    (on_submit local (on_change_manual_cluster_type (some []) chosen)).request
    ≡ some (address, record (same_cluster edge) { platform_type = [] })
unfolding on_submit on_change_manual_cluster_type on_change_cluster_name_list
empty_type_sent = refl

abbrev IsEdge : Text → Type 0
IsEdge t = t ≡ codes "edge"

chosen-Reach : Reach local IsEdge chosen
chosen-Reach = next {s = initial} start (choose (edge ∷ []) (some (codes "edge")) (refl, tt))

chosen_sent : (on_submit local chosen).request ≡ some (address, same_cluster edge)
unfolding on_submit on_change_cluster_name_list
chosen_sent = refl

sent_edit_known_example : IsEdge (codes "edge") × (codes "edge" ≢ [])
sent_edit_known_example =
    sent_edit_known local IsEdge chosen address (same_cluster edge) chosen-Reach chosen_sent

address-some : (get_api_entry_create_endpoint local initial).1 ≢ []
unfolding get_api_entry_create_endpoint
address-some = λ e. cc

on_submit-on_change_cluster_name_list_example :
    ((on_submit local chosen).request
      ≡ some ((get_api_entry_create_endpoint local initial).1, same_cluster edge))
    × (codes "edge" ≡ codes "edge")
unfolding ◌===◌
on_submit-on_change_cluster_name_list_example =
    on_submit-on_change_cluster_name_list local initial (codes "edge") (edge ∷ []) edge refl
      (λ e. cc) (inl refl) address-some

deletion :
    delete_cluster local [] 0 true (edge ∷ []) chosen
    ≡ requested (local_cluster_delete local (codes "edge") (edge ∷ []))
unfolding delete_cluster on_change_cluster_name_list
deletion = refl

delete_cluster-told_example :
    told_after
      ((local_cluster_delete local (codes "edge") (edge ∷ [])).handle
        (resolved 200 (codes "OK") (codes "SUCCESS"))).1
    ≡ (if is_manager local
        then error_deleting
        else told_of (resolved 200 (codes "OK") (codes "SUCCESS")))
delete_cluster-told_example =
    delete_cluster-told local [] 0 true (edge ∷ []) chosen
      (local_cluster_delete local (codes "edge") (edge ∷ []))
      (resolved 200 (codes "OK") (codes "SUCCESS")) deletion
