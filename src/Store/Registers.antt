-- ===== src/Store/Registers.antt =====
-- The store as a set of registers, one for each type of action.
use tornjak.Prelude.{◌≡◌, ◌≢◌, refl, List, [], ◌∷◌, ◌++◌, All, ◌∙◌}
use tornjak.Store.Actions.{
  Kind, Action, Payload, is_authenticated, access_token, user_roles, agents_list,
  agents_workloadattestor_info, federations_list, clusters_list, cluster_type_info, entries_list,
  new_entries, entry_expiry, server_selected, server_info, tornjak_server_info, servers_list,
  selector_info, workload_selector_info, spire_health_check, spire_health_checking,
  spire_health_check_time, debug_server_info, message, clicked_dashboard_table,
}
use tornjak.Store.Reducers.{RootState, all_reducers, dispatch_all}

-- What the store holds for a type of action.
abbrev pub read : (k : Kind) → RootState → Payload k
read is_authenticated s = s.auth.global_is_authenticated
read access_token s = s.auth.global_access_token
read user_roles s = s.auth.global_user_roles
read agents_list s = s.agents.global_agents_list
read agents_workloadattestor_info s = s.agents.global_agents_work_load_attestor_info
read federations_list s = s.federations.global_federations_list
read clusters_list s = s.clusters.global_clusters_list
read cluster_type_info s = s.clusters.global_cluster_type_info
read entries_list s = s.entries.global_entries_list
read new_entries s = s.entries.global_new_entries
read entry_expiry s = s.entries.global_entry_expiry_time
read server_selected s = s.servers.global_server_selected
read server_info s = s.servers.global_server_info
read tornjak_server_info s = s.servers.global_tornjak_server_info
read servers_list s = s.servers.global_servers_list
read selector_info s = s.servers.global_selector_info
read workload_selector_info s = s.servers.global_workload_selector_info
read spire_health_check s = s.servers.global_spire_health_check
read spire_health_checking s = s.servers.global_spire_health_checking
read spire_health_check_time s = s.servers.global_spire_health_time
read debug_server_info s = s.servers.global_debug_server_info
read message s = s.tornjak.global_error_message
read clicked_dashboard_table s = s.tornjak.global_clicked_dashboard_table

-- An action sets the register of its type.
pub read-all_reducers_self :
    (s : RootState) (k : Kind) (p : Payload k)
    → read k (all_reducers s (record { type = k; payload = p })) ≡ p
unfolding all_reducers
read-all_reducers_self s is_authenticated p = refl
read-all_reducers_self s access_token p = refl
read-all_reducers_self s user_roles p = refl
read-all_reducers_self s agents_list p = refl
read-all_reducers_self s agents_workloadattestor_info p = refl
read-all_reducers_self s federations_list p = refl
read-all_reducers_self s clusters_list p = refl
read-all_reducers_self s cluster_type_info p = refl
read-all_reducers_self s entries_list p = refl
read-all_reducers_self s new_entries p = refl
read-all_reducers_self s entry_expiry p = refl
read-all_reducers_self s server_selected p = refl
read-all_reducers_self s server_info p = refl
read-all_reducers_self s tornjak_server_info p = refl
read-all_reducers_self s servers_list p = refl
read-all_reducers_self s selector_info p = refl
read-all_reducers_self s workload_selector_info p = refl
read-all_reducers_self s spire_health_check p = refl
read-all_reducers_self s spire_health_checking p = refl
read-all_reducers_self s spire_health_check_time p = refl
read-all_reducers_self s debug_server_info p = refl
read-all_reducers_self s message p = refl
read-all_reducers_self s clicked_dashboard_table p = refl

-- It leaves the others as they were.
pub read-all_reducers_ne :
    (s : RootState) (k j : Kind) (p : Payload j)
    → k ≢ j
    → read k (all_reducers s (record { type = j; payload = p })) ≡ read k s
unfolding all_reducers
read-all_reducers_ne s is_authenticated is_authenticated p h = absurd (h refl)
read-all_reducers_ne s is_authenticated _ p h = refl
read-all_reducers_ne s access_token access_token p h = absurd (h refl)
read-all_reducers_ne s access_token _ p h = refl
read-all_reducers_ne s user_roles user_roles p h = absurd (h refl)
read-all_reducers_ne s user_roles _ p h = refl
read-all_reducers_ne s agents_list agents_list p h = absurd (h refl)
read-all_reducers_ne s agents_list _ p h = refl
read-all_reducers_ne s agents_workloadattestor_info agents_workloadattestor_info p h =
    absurd (h refl)
read-all_reducers_ne s agents_workloadattestor_info _ p h = refl
read-all_reducers_ne s federations_list federations_list p h = absurd (h refl)
read-all_reducers_ne s federations_list _ p h = refl
read-all_reducers_ne s clusters_list clusters_list p h = absurd (h refl)
read-all_reducers_ne s clusters_list _ p h = refl
read-all_reducers_ne s cluster_type_info cluster_type_info p h = absurd (h refl)
read-all_reducers_ne s cluster_type_info _ p h = refl
read-all_reducers_ne s entries_list entries_list p h = absurd (h refl)
read-all_reducers_ne s entries_list _ p h = refl
read-all_reducers_ne s new_entries new_entries p h = absurd (h refl)
read-all_reducers_ne s new_entries _ p h = refl
read-all_reducers_ne s entry_expiry entry_expiry p h = absurd (h refl)
read-all_reducers_ne s entry_expiry _ p h = refl
read-all_reducers_ne s server_selected server_selected p h = absurd (h refl)
read-all_reducers_ne s server_selected _ p h = refl
read-all_reducers_ne s server_info server_info p h = absurd (h refl)
read-all_reducers_ne s server_info _ p h = refl
read-all_reducers_ne s tornjak_server_info tornjak_server_info p h = absurd (h refl)
read-all_reducers_ne s tornjak_server_info _ p h = refl
read-all_reducers_ne s servers_list servers_list p h = absurd (h refl)
read-all_reducers_ne s servers_list _ p h = refl
read-all_reducers_ne s selector_info selector_info p h = absurd (h refl)
read-all_reducers_ne s selector_info _ p h = refl
read-all_reducers_ne s workload_selector_info workload_selector_info p h = absurd (h refl)
read-all_reducers_ne s workload_selector_info _ p h = refl
read-all_reducers_ne s spire_health_check spire_health_check p h = absurd (h refl)
read-all_reducers_ne s spire_health_check _ p h = refl
read-all_reducers_ne s spire_health_checking spire_health_checking p h = absurd (h refl)
read-all_reducers_ne s spire_health_checking _ p h = refl
read-all_reducers_ne s spire_health_check_time spire_health_check_time p h = absurd (h refl)
read-all_reducers_ne s spire_health_check_time _ p h = refl
read-all_reducers_ne s debug_server_info debug_server_info p h = absurd (h refl)
read-all_reducers_ne s debug_server_info _ p h = refl
read-all_reducers_ne s message message p h = absurd (h refl)
read-all_reducers_ne s message _ p h = refl
read-all_reducers_ne s clicked_dashboard_table clicked_dashboard_table p h = absurd (h refl)
read-all_reducers_ne s clicked_dashboard_table _ p h = refl

-- Actions of two different types can be dispatched in either order.
pub all_reducers_comm :
    (s : RootState) (j k : Kind) (p : Payload j) (q : Payload k)
    → j ≢ k
    → all_reducers
        (all_reducers s (record { type = j; payload = p }))
        (record { type = k; payload = q })
      ≡ all_reducers
          (all_reducers s (record { type = k; payload = q }))
          (record { type = j; payload = p })
unfolding all_reducers
all_reducers_comm s is_authenticated is_authenticated p q h = absurd (h refl)
all_reducers_comm s is_authenticated _ p q h = refl
all_reducers_comm s access_token access_token p q h = absurd (h refl)
all_reducers_comm s access_token _ p q h = refl
all_reducers_comm s user_roles user_roles p q h = absurd (h refl)
all_reducers_comm s user_roles _ p q h = refl
all_reducers_comm s agents_list agents_list p q h = absurd (h refl)
all_reducers_comm s agents_list _ p q h = refl
all_reducers_comm s agents_workloadattestor_info agents_workloadattestor_info p q h =
    absurd (h refl)
all_reducers_comm s agents_workloadattestor_info _ p q h = refl
all_reducers_comm s federations_list federations_list p q h = absurd (h refl)
all_reducers_comm s federations_list _ p q h = refl
all_reducers_comm s clusters_list clusters_list p q h = absurd (h refl)
all_reducers_comm s clusters_list _ p q h = refl
all_reducers_comm s cluster_type_info cluster_type_info p q h = absurd (h refl)
all_reducers_comm s cluster_type_info _ p q h = refl
all_reducers_comm s entries_list entries_list p q h = absurd (h refl)
all_reducers_comm s entries_list _ p q h = refl
all_reducers_comm s new_entries new_entries p q h = absurd (h refl)
all_reducers_comm s new_entries _ p q h = refl
all_reducers_comm s entry_expiry entry_expiry p q h = absurd (h refl)
all_reducers_comm s entry_expiry _ p q h = refl
all_reducers_comm s server_selected server_selected p q h = absurd (h refl)
all_reducers_comm s server_selected _ p q h = refl
all_reducers_comm s server_info server_info p q h = absurd (h refl)
all_reducers_comm s server_info _ p q h = refl
all_reducers_comm s tornjak_server_info tornjak_server_info p q h = absurd (h refl)
all_reducers_comm s tornjak_server_info _ p q h = refl
all_reducers_comm s servers_list servers_list p q h = absurd (h refl)
all_reducers_comm s servers_list _ p q h = refl
all_reducers_comm s selector_info selector_info p q h = absurd (h refl)
all_reducers_comm s selector_info _ p q h = refl
all_reducers_comm s workload_selector_info workload_selector_info p q h = absurd (h refl)
all_reducers_comm s workload_selector_info _ p q h = refl
all_reducers_comm s spire_health_check spire_health_check p q h = absurd (h refl)
all_reducers_comm s spire_health_check _ p q h = refl
all_reducers_comm s spire_health_checking spire_health_checking p q h = absurd (h refl)
all_reducers_comm s spire_health_checking _ p q h = refl
all_reducers_comm s spire_health_check_time spire_health_check_time p q h = absurd (h refl)
all_reducers_comm s spire_health_check_time _ p q h = refl
all_reducers_comm s debug_server_info debug_server_info p q h = absurd (h refl)
all_reducers_comm s debug_server_info _ p q h = refl
all_reducers_comm s message message p q h = absurd (h refl)
all_reducers_comm s message _ p q h = refl
all_reducers_comm s clicked_dashboard_table clicked_dashboard_table p q h = absurd (h refl)
all_reducers_comm s clicked_dashboard_table _ p q h = refl

-- What no action of a sequence is about stays as it was.
pub read-dispatch_all_ne :
    (s : RootState) (k : Kind) (actions : List Action)
    → All (λ (a : Action). k ≢ a.type) actions
    → read k (dispatch_all s actions) ≡ read k s
unfolding dispatch_all
read-dispatch_all_ne s k [] _ = refl
read-dispatch_all_ne s k (a ∷ actions) (h, hs) =
    read-dispatch_all_ne (all_reducers s a) k actions hs
    ∙ read-all_reducers_ne s k a.type a.payload h

-- After any sequence of actions the store holds, for each type, the payload of the last action of
-- that type.
pub read-dispatch_all_last :
    (s : RootState) (k : Kind) (p : Payload k) (before after : List Action)
    → All (λ (a : Action). k ≢ a.type) after
    → read k (dispatch_all s (before ++ record { type = k; payload = p } ∷ after)) ≡ p
unfolding dispatch_all
read-dispatch_all_last s k p [] after h =
    read-dispatch_all_ne (all_reducers s (record { type = k; payload = p })) k after h
    ∙ read-all_reducers_self s k p
read-dispatch_all_last s k p (a ∷ before) after h =
    read-dispatch_all_last (all_reducers s a) k p before after h
