-- ===== src/ClusterCreate/Machine.antt =====
-- The form as a state machine, and the request that it sends.
use tornjak.Prelude.{
  ◌≡◌, ◌≢◌, ◌↔◌, ◌⊎◌, refl, sym, ap, ◌∙◌, true, false, Option, none, some, List, [], ◌∷◌, arith,
  Bool-cases, inl, inr,
}
use tornjak.Js.{Text, codes, ◌===◌, ===_iff}
use tornjak.Config.{Env, is_manager}
use tornjak.ClusterCreate.Form.{
  State, initial, type_option, on_change_agents_list, on_change_cluster_name,
  on_change_cluster_type, on_change_manual_cluster_type, on_change_cluster_domain_name,
  on_change_cluster_managed_by, NewCluster, new_cluster, get_api_cluster_create_endpoint, post_to,
  on_submit, on_submit_answer,
}

-- One change. The field for a type of one's own is shown only while `clusterTypeManualEntry` holds.
pub data Step (env : Env) (s : State) : State → Type 0 where
  agents : (e : Option (List Text)) → Step env s (on_change_agents_list e s)
  name : (e : Option Text) → Step env s (on_change_cluster_name e s)
  type : (e : Option Text) → Step env s (on_change_cluster_type e s)
  manual_type :
      (e : Option Text)
      → s.cluster_type_manual_entry ≡ true
      → Step env s (on_change_manual_cluster_type e s)
  domain_name : (e : Option Text) → Step env s (on_change_cluster_domain_name e s)
  managed_by : (e : Option Text) → Step env s (on_change_cluster_managed_by e s)
  select_server : (server : Text) → Step env s (record s { selected_server = server })
  submitted : Step env s (on_submit env s).state
  answered : (request answer : Text) → Step env s (on_submit_answer request answer s)

pub data Reach (env : Env) (types : List Text) : State → Type 0 where
  start : Reach env types (initial types)
  next : {s t : State} → Reach env types s → Step env s t → Reach env types t

-- The text of the option never changes, and as the type it stands only for manual entry.
pub record IsMarked (s : State) : Type 0 where
  pub option : s.cluster_type_manual_entry_option ≡ type_option
  pub manual : s.cluster_type ≡ type_option → s.cluster_type_manual_entry ≡ true

-- Pressing the button changes the message at most.
endpoint_kept :
    (env : Env) (s : State)
    → ((get_api_cluster_create_endpoint env s).0 ≡ s)
      ⊎ ((get_api_cluster_create_endpoint env s).0
          ≡ record s { message = codes "Error: No server selected" })
unfolding get_api_cluster_create_endpoint
endpoint_kept env s = elim (Bool-cases (is_manager env)) [
  | inr no_ ↦ inl (rw no_ refl)
  | inl yes_ ↦ elim (Bool-cases (s.selected_server === [])) [
    | inl none_ ↦ inr (rw (yes_, none_) refl)
    | inr some_ ↦ inl (rw (yes_, some_) refl)
  ]
]

post_to_state : (p : State × Text) (c : NewCluster) → (post_to p c).state ≡ p.0
post_to_state (s, []) c = refl
post_to_state (s, x ∷ uri) c = refl

submitted_kept :
    (env : Env) (s : State)
    → ((on_submit env s).state ≡ s)
      ⊎ ((on_submit env s).state ≡ (get_api_cluster_create_endpoint env s).0)
unfolding on_submit
submitted_kept env s =
    ground (arith, post_to_state (get_api_cluster_create_endpoint env s) (new_cluster s))

submitted-IsMarked : (env : Env) (s : State) → IsMarked s → IsMarked (on_submit env s).state
submitted-IsMarked env s m = elim (submitted_kept env s) [
  | inl e ↦ rw e m
  | inr e ↦ elim (endpoint_kept env s) [
    | inl f ↦ rw (e, f) m
    | inr f ↦ rw (e, f) (record { option = m.option; manual = m.manual })
  ]
]

chosen-IsMarked : (e : Option Text) (s : State) → IsMarked s → IsMarked (on_change_cluster_type e s)
unfolding on_change_cluster_type
chosen-IsMarked none s m = m
chosen-IsMarked (some sid) s m = elim (Bool-cases (sid === s.cluster_type_manual_entry_option)) [
  | inl e ↦ rw e (record { option = m.option; manual = λ h. refl })
  | inr e ↦ rw e (record {
    option = m.option;
    manual =
        λ h. let same = (===_iff sid s.cluster_type_manual_entry_option).1 (h ∙ sym m.option) in cc;
  })
]

pub Step-IsMarked : {env : Env} {s t : State} → Step env s t → IsMarked s → IsMarked t
unfolding on_change_agents_list on_change_cluster_name on_change_manual_cluster_type
    on_change_cluster_domain_name on_change_cluster_managed_by on_submit_answer
Step-IsMarked (agents none) m = m
Step-IsMarked (agents (some labels)) m = record { option = m.option; manual = m.manual }
Step-IsMarked (name none) m = m
Step-IsMarked (name (some sid)) m = record { option = m.option; manual = m.manual }
Step-IsMarked {s = s} (type e) m = chosen-IsMarked e s m
Step-IsMarked (manual_type none shown) m = m
Step-IsMarked (manual_type (some sid) shown) m = record { option = m.option; manual = λ h. shown }
Step-IsMarked (domain_name none) m = m
Step-IsMarked (domain_name (some sid)) m = record { option = m.option; manual = m.manual }
Step-IsMarked (managed_by none) m = m
Step-IsMarked (managed_by (some sid)) m = record { option = m.option; manual = m.manual }
Step-IsMarked (select_server server) m = record { option = m.option; manual = m.manual }
Step-IsMarked {env = env} {s = s} submitted m = submitted-IsMarked env s m
Step-IsMarked (answered request answer) m = record { option = m.option; manual = m.manual }

pub Reach-IsMarked : {env : Env} {types : List Text} {s : State} → Reach env types s → IsMarked s
unfolding initial
Reach-IsMarked start = record { option = refl; manual = λ h. cc }
Reach-IsMarked (next r step) = Step-IsMarked step (Reach-IsMarked r)

-- The form is complete.
pub record IsReady (env : Env) (s : State) : Type 0 where
  pub named : s.cluster_name ≢ []
  pub typed : s.cluster_type ≢ []
  pub chosen :
      (s.cluster_type_manual_entry ≡ false) ⊎ (s.cluster_type ≢ s.cluster_type_manual_entry_option)
  pub addressed : (get_api_cluster_create_endpoint env s).1 ≢ []

post_to-some :
    (p : State × Text) (c : NewCluster) → p.1 ≢ [] → (post_to p c).request ≡ some (p.1, c)
post_to-some (s, []) c h = absurd (h refl)
post_to-some (s, x ∷ uri) c h = refl

post_to_sent :
    (p : State × Text) (given c : NewCluster) (uri : Text)
    → (post_to p given).request ≡ some (uri, c)
    → (p.1 ≢ []) × (uri ≡ p.1) × (c ≡ given)
post_to_sent (s, []) given c uri h = cc
post_to_sent (s, x ∷ u) given c uri h = (λ e. cc, cc, cc)

passed :
    (env : Env) (s : State) (uri : Text) (c : NewCluster)
    → (on_submit env s).request ≡ some (uri, c)
    → (s.cluster_name ≢ [])
      × (s.cluster_type ≢ [])
      × ((s.cluster_type_manual_entry ≡ false)
          ⊎ (s.cluster_type ≢ s.cluster_type_manual_entry_option))
      × ((post_to (get_api_cluster_create_endpoint env s) (new_cluster s)).request ≡ some (uri, c))
unfolding on_submit
passed env s uri c h = ground (arith, ===_iff s.cluster_type s.cluster_type_manual_entry_option)

on_submit_ready :
    (env : Env) (s : State)
    → IsReady env s
    → (on_submit env s).request ≡ some ((get_api_cluster_create_endpoint env s).1, new_cluster s)
unfolding on_submit
on_submit_ready env s r = ground (
  arith,
  ===_iff s.cluster_type s.cluster_type_manual_entry_option,
  r.named,
  r.typed,
  r.chosen,
  post_to-some (get_api_cluster_create_endpoint env s) (new_cluster s) r.addressed,
)

-- A request is sent exactly if there are a name and a type, the type is not the option for manual
-- entry while manual entry is on, and there is an address; it goes to that address with the fields of
-- the form.
pub cluster_submit_iff :
    (env : Env) (s : State) (uri : Text) (c : NewCluster)
    → ((on_submit env s).request ≡ some (uri, c))
      ↔ (IsReady env s × (uri ≡ (get_api_cluster_create_endpoint env s).1) × (c ≡ new_cluster s))
cluster_submit_iff env s uri c = (
  λ h.
      let (named, typed, chosen, posted) = passed env s uri c h in
      let (address, to, same) =
        post_to_sent (get_api_cluster_create_endpoint env s) (new_cluster s) c uri posted in
      (record { named = named; typed = typed; chosen = chosen; addressed = address }, to, same),
  λ (ready, to, same). rw (to, same) (on_submit_ready env s ready),
)

-- In every state that the form can reach, the type of a cluster that is sent is a type, never the
-- text of the option for manual entry.
pub sent_type_ne_option :
    (env : Env) (types : List Text) (s : State) (uri : Text) (c : NewCluster)
    → Reach env types s
    → (on_submit env s).request ≡ some (uri, c)
    → (c.platform_type ≢ []) × (c.platform_type ≢ type_option)
sent_type_ne_option env types s uri c reached h =
    let (ready, _, same) = (cluster_submit_iff env s uri c).0 h in
    let m = Reach-IsMarked reached in
    (
      λ e. ready.typed (ap (λ (d : NewCluster). d.platform_type) (sym same) ∙ e),
      λ e.
          let type_is : s.cluster_type ≡ type_option =
            ap (λ (d : NewCluster). d.platform_type) (sym same) ∙ e in
          elim ready.chosen [
            | inl off ↦ let on = m.manual type_is in cc
            | inr ne ↦ ne (type_is ∙ sym m.option)
          ],
    )
