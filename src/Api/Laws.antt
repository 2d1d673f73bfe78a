-- ===== src/Api/Laws.antt =====
-- What an answer does to the store.
use tornjak.Prelude.{ℕ, ◌≡◌, ◌≢◌, ◌↔◌, refl, ◌∙◌, true, Option, List, [], ◌++◌, arith}
use tornjak.Js.{Text}
use tornjak.Types.{Agent, Entry, Federation}
use tornjak.Config.{Env}
use tornjak.Store.Actions.{
  Kind, Payload, Failure, Message, text, agents_list, entries_list, federations_list, message,
  spire_health_check, spire_health_checking,
}
use tornjak.Store.Reducers.{RootState, all_reducers}
use tornjak.Store.Registers.{read, read-all_reducers_ne, read-all_reducers_self}
use tornjak.Api.Calls.{Reply, resolved, rejected, Call, run, or_empty}
use tornjak.Api.Local.{
  spire_health_check_call, populate_local_agents_update, populate_local_entries_update,
  populate_local_federations_update, refresh_local_selectors_state,
  populate_local_tornjak_agent_info, populate_local_tornjak_debug_server_info,
  populate_local_tornjak_server_info,
}
use tornjak.Api.Manager.{
  populate_agents_update, populate_entries_update, refresh_selectors_state,
  populate_tornjak_agent_info,
}

-- The store after a method has been called and its answer has come.
abbrev pub after : {A : Type 0} → Call A → Reply A → RootState → RootState
after c r s = run (c.before ++ c.handle r) s

-- The list of an answer, and the empty list if there is none.
abbrev pub list_of : {A : Type 0} → Reply (Option (List A)) → List A
list_of (resolved status status_text xs) = or_empty xs
list_of (rejected error) = []

-- The register of `k` has become `p`; besides it only the message has changed.
abbrev pub Fills : (k : Kind) → Payload k → RootState → RootState → Type 0
Fills k p s t = (read k t ≡ p) × ((j : Kind) → j ≢ k → j ≢ message → read j t ≡ read j s)

fills :
    (s : RootState) (k : Kind) (p : Payload k) (m : Message)
    → k ≢ message
    → Fills k p s (
        all_reducers
          (all_reducers s (record { type = k; payload = p }))
          (record { type = message; payload = m }))
fills s k p m h = (
  read-all_reducers_ne _ k message m h ∙ read-all_reducers_self s k p,
  λ j ne_k ne_m. read-all_reducers_ne _ j message m ne_m ∙ read-all_reducers_ne s j k p ne_k,
)

local_agents :
    (env : Env) (s : RootState) (r : Reply (Option (List Agent)))
    → Fills agents_list (list_of r) s (after (populate_local_agents_update env) r s)
unfolding run populate_local_agents_update
local_agents env s (resolved status status_text xs) = fills s agents_list _ _ (λ e. cc)
local_agents env s (rejected error) = fills s agents_list _ _ (λ e. cc)

manager_agents :
    (env : Env) (server : Text) (s : RootState) (r : Reply (Option (List Agent)))
    → Fills agents_list (list_of r) s (after (populate_agents_update env server) r s)
unfolding run populate_agents_update
manager_agents env server s (resolved status status_text xs) = fills s agents_list _ _ (λ e. cc)
manager_agents env server s (rejected error) = fills s agents_list _ _ (λ e. cc)

local_entries :
    (env : Env) (s : RootState) (r : Reply (Option (List Entry)))
    → Fills entries_list (list_of r) s (after (populate_local_entries_update env) r s)
unfolding run populate_local_entries_update
local_entries env s (resolved status status_text xs) = fills s entries_list _ _ (λ e. cc)
local_entries env s (rejected error) = fills s entries_list _ _ (λ e. cc)

manager_entries :
    (env : Env) (server : Text) (s : RootState) (r : Reply (Option (List Entry)))
    → Fills entries_list (list_of r) s (after (populate_entries_update env server) r s)
unfolding run populate_entries_update
manager_entries env server s (resolved status status_text xs) = fills s entries_list _ _ (λ e. cc)
manager_entries env server s (rejected error) = fills s entries_list _ _ (λ e. cc)

local_federations :
    (env : Env) (s : RootState) (r : Reply (Option (List Federation)))
    → Fills federations_list (list_of r) s (after (populate_local_federations_update env) r s)
unfolding run populate_local_federations_update
local_federations env s (resolved status status_text xs) = fills s federations_list _ _ (λ e. cc)
local_federations env s (rejected error) = fills s federations_list _ _ (λ e. cc)

-- Agents and entries in both modes, and federations in local mode, are replaced by those of the
-- answer, and by the empty list if the answer has none or the request fails; besides them nothing
-- but the message changes.
pub populate-Fills :
    (env : Env) (server : Text) (s : RootState) (ra : Reply (Option (List Agent)))
    (re : Reply (Option (List Entry))) (rf : Reply (Option (List Federation)))
    → Fills agents_list (list_of ra) s (after (populate_local_agents_update env) ra s)
      × Fills agents_list (list_of ra) s (after (populate_agents_update env server) ra s)
      × Fills entries_list (list_of re) s (after (populate_local_entries_update env) re s)
      × Fills entries_list (list_of re) s (after (populate_entries_update env server) re s)
      × Fills federations_list (list_of rf) s (after (populate_local_federations_update env) rf s)
populate-Fills env server s ra re rf = (
  local_agents env s ra,
  manager_agents env server s ra,
  local_entries env s re,
  manager_entries env server s re,
  local_federations env s rf,
)

-- The health check ends with the check done, and healthy exactly if the answer says 1.
pub read-after_health_check :
    (env : Env) (s : RootState) (r : Reply ℕ)
    → let t = after (spire_health_check_call env) r s in
      (read spire_health_checking t ≡ true)
      × ((read spire_health_check t ≡ true)
          ↔ ((status : ℕ) × (status_text : Text) × (r ≡ resolved status status_text 1)))
unfolding run spire_health_check_call
read-after_health_check env s (resolved status status_text h) =
    (refl, (λ e. (status, status_text, ground arith), λ (a, b, e). ground arith))
read-after_health_check env s (rejected error) = (refl, (λ e. cc, λ (a, b, e). cc))

-- A request that only reads selectors, agent information or debugging information leaves the store
-- as it was when it fails.
pub refresh_failed :
    (env : Env) (server given : Text) (s : RootState) (error : Failure)
    → (after (refresh_local_selectors_state env) (rejected error) s ≡ s)
      × (after (refresh_selectors_state env server) (rejected error) s ≡ s)
      × (after (populate_local_tornjak_agent_info env given) (rejected error) s ≡ s)
      × (after (populate_tornjak_agent_info env server given) (rejected error) s ≡ s)
      × (after (populate_local_tornjak_debug_server_info env) (rejected error) s ≡ s)
unfolding run refresh_local_selectors_state refresh_selectors_state
    populate_local_tornjak_agent_info populate_tornjak_agent_info
    populate_local_tornjak_debug_server_info
refresh_failed env server given s error = (refl, refl, refl, refl, refl)

-- After a failed request for the server information in local mode the message of the store is no
-- text, whatever the error.
pub server_info_failed_message :
    (env : Env) (s : RootState) (error : Failure) (t : Text)
    → read message (after (populate_local_tornjak_server_info env) (rejected error) s) ≢ text t
unfolding run populate_local_tornjak_server_info
server_info_failed_message env s error t = λ e. cc
