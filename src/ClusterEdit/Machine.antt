-- ===== src/ClusterEdit/Machine.antt =====
-- The form as a state machine, the request that it sends, and what the user is told of a deletion.
use tornjak.Prelude.{
  ◌≡◌, ◌≢◌, ◌⊎◌, refl, sym, ap, ◌∙◌, subst, Bool, false, Option, none, some, List, [], ◌∷◌, arith,
  All, ℕ, Bool-cases, inl, inr, if◌then◌else◌,
}
use tornjak.Js.{Text, codes, ◌===◌, ===_iff}
use tornjak.Types.{Cluster}
use tornjak.Config.{Env, is_manager}
use tornjak.Api.Calls.{Reply, resolved, rejected}
use tornjak.Api.Delete.{DeleteCall, local_cluster_delete, cluster_delete}
use tornjak.ClusterEdit.Form.{
  State, initial, prepare_cluster_name_list, last_named, shown_cluster, on_change_cluster_name_list,
  on_change_cluster_name, on_change_cluster_type, on_change_manual_cluster_type,
  on_change_cluster_domain_name, on_change_cluster_managed_by, on_change_agents_list,
  get_api_entry_create_endpoint, EditedCluster, edited_cluster, patch_to, on_submit,
  on_submit_answer, requested, delete_cluster, Told, error_deleting, deleted_successfully,
  told_after,
}

-- One event. `known` holds for the names of the clusters that the store ever held.
pub data Step (env : Env) (known : Text → Type 0) (s : State) : State → Type 0 where
  prepare :
      (clusters : Option (List Cluster)) (has_debug_info : Bool)
      → Step env known s (prepare_cluster_name_list clusters has_debug_info s)
  choose :
      (clusters : List Cluster) (e : Option Text)
      → All (λ (c : Cluster). known c.name) clusters
      → Step env known s (on_change_cluster_name_list (some clusters) e s)
  name : (e : Option Text) → Step env known s (on_change_cluster_name e s)
  type : (e : Option Text) → Step env known s (on_change_cluster_type e s)
  manual_type : (e : Option Text) → Step env known s (on_change_manual_cluster_type e s)
  domain_name : (e : Option Text) → Step env known s (on_change_cluster_domain_name e s)
  managed_by : (e : Option Text) → Step env known s (on_change_cluster_managed_by e s)
  agents : (e : Option (List Text)) → Step env known s (on_change_agents_list e s)
  select_server : (server : Text) → Step env known s (record s { selected_server = server })
  submitted : Step env known s (on_submit env s).state
  answered : (request answer : Text) → Step env known s (on_submit_answer request answer s)

pub data Reach (env : Env) (known : Text → Type 0) : State → Type 0 where
  start : Reach env known initial
  next : {s t : State} → Reach env known s → Step env known s t → Reach env known t

-- The cluster to be edited is none, or a known one.
abbrev Known : (Text → Type 0) → State → Type 0
Known known s = (s.original_cluster_name ≡ []) ⊎ known s.original_cluster_name

-- The search finds a cluster of the list with the name.
pub last_named-All {ℓ} :
    (p : Cluster → Type ℓ) (sid : Text) (found : Option Cluster) (cs : List Cluster) (c : Cluster)
    → All p cs
    → ((d : Cluster) → found ≡ some d → p d × (d.name ≡ sid))
    → last_named sid found cs ≡ some c
    → p c × (c.name ≡ sid)
last_named-All p sid found [] c h f e = f c e
last_named-All p sid found (d ∷ cs) c (h, hs) f e = elim (Bool-cases (d.name === sid)) [
  | inl yes_ ↦
      last_named-All p sid (some d) cs c hs
        (λ x same.
          let eq : d ≡ x = cc in
          subst (λ y. p y × (y.name ≡ sid)) eq (h, (===_iff d.name sid).0 yes_))
        (rw yes_ at e)
  | inr no_ ↦ last_named-All p sid found cs c hs f (rw no_ at e)
]

shown-Known :
    (known : Text → Type 0) (sid : Text) (clusters : List Cluster) (s : State) (o : Option Cluster)
    → All (λ (c : Cluster). known c.name) clusters
    → last_named sid none clusters ≡ o
    → Known known s
    → Known known (shown_cluster o s)
shown-Known known sid clusters s none h e k = k
shown-Known known sid clusters s (some c) h e k =
    inr (last_named-All (λ (d : Cluster). known d.name) sid none clusters c h (λ d f. cc) e).0

patch_to_name : (p : State × Text) (c : EditedCluster) → (patch_to p c).state ≡ p.0
patch_to_name (s, []) c = refl
patch_to_name (s, x ∷ uri) c = refl

endpoint_name :
    (env : Env) (s : State)
    → (get_api_entry_create_endpoint env s).0.original_cluster_name ≡ s.original_cluster_name
unfolding get_api_entry_create_endpoint
endpoint_name env s = ground arith

submitted_name :
    (env : Env) (s : State)
    → (on_submit env s).state.original_cluster_name ≡ s.original_cluster_name
unfolding on_submit
submitted_name env s = ground (
  arith,
  patch_to_name (get_api_entry_create_endpoint env s) (edited_cluster s),
  endpoint_name env s,
)

prepare_name :
    (clusters : Option (List Cluster)) (i : Bool) (s : State)
    → (prepare_cluster_name_list clusters i s).original_cluster_name ≡ s.original_cluster_name
unfolding prepare_cluster_name_list
prepare_name none i s = refl
prepare_name (some clusters) i s = ground arith

type_name :
    (e : Option Text) (s : State)
    → (on_change_cluster_type e s).original_cluster_name ≡ s.original_cluster_name
unfolding on_change_cluster_type
type_name none s = refl
type_name (some []) s = refl
type_name (some (c ∷ sid)) s = ground arith

by_name :
    (known : Text → Type 0) (s t : State)
    → t.original_cluster_name ≡ s.original_cluster_name
    → Known known s
    → Known known t
by_name known s t e k = rw e k

Step-Known :
    {env : Env} {known : Text → Type 0} {s t : State}
    → Step env known s t
    → Known known s
    → Known known t
unfolding on_change_cluster_name_list on_submit_answer on_change_cluster_name
    on_change_manual_cluster_type on_change_cluster_domain_name on_change_cluster_managed_by
    on_change_agents_list
Step-Known {known = known} {s = s} {t = t} (prepare clusters i) k =
    by_name known s t (prepare_name clusters i s) k
Step-Known (choose clusters none h) k = k
Step-Known {known = known} {s = s} (choose clusters (some sid) h) k =
    shown-Known known sid clusters s (last_named sid none clusters) h refl k
Step-Known (name none) k = k
Step-Known (name (some sid)) k = k
Step-Known {known = known} {s = s} {t = t} (type e) k = by_name known s t (type_name e s) k
Step-Known (manual_type none) k = k
Step-Known (manual_type (some sid)) k = k
Step-Known (domain_name none) k = k
Step-Known (domain_name (some sid)) k = k
Step-Known (managed_by none) k = k
Step-Known (managed_by (some sid)) k = k
Step-Known (agents none) k = k
Step-Known (agents (some labels)) k = k
Step-Known (select_server server) k = k
Step-Known {env = env} {known = known} {s = s} {t = t} submitted k =
    by_name known s t (submitted_name env s) k
Step-Known (answered request answer) k = k

Reach-Known : {env : Env} {known : Text → Type 0} {s : State} → Reach env known s → Known known s
Reach-Known start = inl refl
Reach-Known (next r step) = Step-Known step (Reach-Known r)

patched :
    (p : State × Text) (given c : EditedCluster) (uri : Text)
    → (patch_to p given).request ≡ some (uri, c)
    → (uri ≡ p.1) × (c ≡ given)
patched (s, []) given c uri h = cc
patched (s, x ∷ u) given c uri h = (cc, cc)

passed :
    (env : Env) (s : State) (uri : Text) (c : EditedCluster)
    → (on_submit env s).request ≡ some (uri, c)
    → (s.original_cluster_name ≢ [])
      × (s.cluster_name ≢ [])
      × ((s.cluster_type_manual_entry ≡ false)
          ⊎ (s.cluster_type ≢ s.cluster_type_manual_entry_option))
      × ((patch_to (get_api_entry_create_endpoint env s) (edited_cluster s)).request
          ≡ some (uri, c))
unfolding on_submit
passed env s uri c h = ground (arith, ===_iff s.cluster_type s.cluster_type_manual_entry_option)

-- Whatever the user does, an edit that is sent is one of a cluster that the store has held: its name is a
-- known one, and the new name is not empty.
pub sent_edit_known :
    (env : Env) (known : Text → Type 0) (s : State) (uri : Text) (c : EditedCluster)
    → Reach env known s
    → (on_submit env s).request ≡ some (uri, c)
    → known c.name × (c.edited_name ≢ [])
sent_edit_known env known s uri c r h =
    let (chosen, named, typed, sent) = passed env s uri c h in
    let (_, same) = patched (get_api_entry_create_endpoint env s) (edited_cluster s) c uri sent in
    let original = ap (λ (d : EditedCluster). d.name) same in
    let edited = ap (λ (d : EditedCluster). d.edited_name) same in
    elim (Reach-Known r) [
      | inl e ↦ absurd (chosen e)
      | inr k ↦ (rw original k, λ e. named (sym edited ∙ e))
    ]

-- The edit that changes nothing.
abbrev pub same_cluster : Cluster → EditedCluster
same_cluster c = record {
  name = c.name;
  edited_name = c.name;
  platform_type = c.platform_type;
  domain_name = c.domain_name;
  managed_by = c.managed_by;
  agents_list = c.agents_list;
}

patch_some :
    (p : State × Text) (c : EditedCluster) → p.1 ≢ [] → (patch_to p c).request ≡ some (p.1, c)
patch_some (s, []) c h = absurd (h refl)
patch_some (s, x ∷ uri) c h = refl

endpoint-shown_cluster :
    (env : Env) (s : State) (c : Cluster)
    → (get_api_entry_create_endpoint env (shown_cluster (some c) s)).1
      ≡ (get_api_entry_create_endpoint env s).1
unfolding get_api_entry_create_endpoint
endpoint-shown_cluster env s c = ground arith

shown_sent :
    (env : Env) (s : State) (c : Cluster)
    → c.name ≢ []
    → (s.cluster_type_manual_entry ≡ false) ⊎ (c.platform_type ≢ s.cluster_type_manual_entry_option)
    → (get_api_entry_create_endpoint env s).1 ≢ []
    → (on_submit env (shown_cluster (some c) s)).request
      ≡ some ((get_api_entry_create_endpoint env s).1, same_cluster c)
unfolding on_submit
shown_sent env s c h t a =
    let shown = shown_cluster (some c) s in
    let same = endpoint-shown_cluster env s c in
    ground (
      arith,
      ===_iff c.platform_type s.cluster_type_manual_entry_option,
      same,
      patch_some (get_api_entry_create_endpoint env shown) (same_cluster c) (rw same a),
    )

All_refl : (cs : List Cluster) → All (λ (c : Cluster). c ≡ c) cs
All_refl [] = tt
All_refl (c ∷ cs) = (refl, All_refl cs)

-- Choosing a cluster by its name and pressing the button at once sends the edit that changes nothing: all
-- fields are those of a cluster of the list with that name, if there is one. The name must not be empty,
-- there must be an address, and the type must not be the option for manual entry while that is on.
pub on_submit-on_change_cluster_name_list :
    (env : Env) (s : State) (sid : Text) (clusters : List Cluster) (c : Cluster)
    → last_named sid none clusters ≡ some c
    → c.name ≢ []
    → (s.cluster_type_manual_entry ≡ false) ⊎ (c.platform_type ≢ s.cluster_type_manual_entry_option)
    → (get_api_entry_create_endpoint env s).1 ≢ []
    → ((on_submit env (on_change_cluster_name_list (some clusters) (some sid) s)).request
        ≡ some ((get_api_entry_create_endpoint env s).1, same_cluster c))
      × (c.name ≡ sid)
unfolding on_change_cluster_name_list
on_submit-on_change_cluster_name_list env s sid clusters c e named typed address = (
  rw e (shown_sent env s c named typed address),
  (last_named-All (λ d. d ≡ d) sid none clusters c (All_refl clusters) (λ d f. cc) e).1,
)

abbrev pub told_of : Reply Text → Told
told_of (resolved status status_text answer) =
    if answer === codes "SUCCESS" then deleted_successfully else error_deleting
told_of (rejected failure) = error_deleting

told_local :
    (env : Env) (name_ : Text) (clusters : List Cluster) (r : Reply Text)
    → told_after ((local_cluster_delete env name_ clusters).handle r).1 ≡ told_of r
unfolding told_after local_cluster_delete
told_local env name_ clusters (resolved status status_text answer) = refl
told_local env name_ clusters (rejected failure) = refl

told_manager :
    (env : Env) (server name_ : Text) (input : ℕ) (clusters : List Cluster) (r : Reply Text)
    → told_after ((cluster_delete env server name_ input clusters).handle r).1 ≡ error_deleting
unfolding told_after cluster_delete
told_manager env server name_ input clusters (resolved status status_text answer) = refl
told_manager env server name_ input clusters (rejected failure) = refl

-- What the user is told of a deletion that was requested: in manager mode always an error, whatever the
-- server answers; else success exactly for the answer "SUCCESS".
pub delete_cluster-told :
    (env : Env) (server : Text) (input : ℕ) (confirmed : Bool) (clusters : List Cluster) (s : State)
    (d : DeleteCall) (r : Reply Text)
    → delete_cluster env server input confirmed clusters s ≡ requested d
    → told_after (d.handle r).1 ≡ (if is_manager env then error_deleting else told_of r)
unfolding delete_cluster
delete_cluster-told env server input confirmed clusters s d r h = ground (
  arith,
  told_local env s.cluster_name clusters r,
  told_manager env server s.cluster_name input clusters r,
)
