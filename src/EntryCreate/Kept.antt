-- ===== src/EntryCreate/Kept.antt =====
-- What the preparations and the recommendation leave alone.
use tornjak.Prelude.{
  ◌≡◌, refl, ◌∙◌, Bool, true, false, Option, none, some, List, [], ◌∷◌, ◌++◌, arith, if◌then◌else◌,
  Option-cases, subst, inl, inr,
}
use tornjak.Js.{Text, codes, ◌===◌}
use tornjak.Types.{AttestorInfo, Agent, Entry, SelectorInfo}
use tornjak.Spiffe.Ids.{prefix}
use tornjak.EntryCreate.State.{State, Props}
use tornjak.EntryCreate.Handlers.{on_change_selectors_recommended}
use tornjak.EntryCreate.ParentIds.{prepare_parent_id_agents_list}
use tornjak.EntryCreate.SelectorsList.{
  prepare_selectors_list, offer_for_server, offer_for_agent, offer_for_plugin, none_offered,
  offer_among, agent_of_parent, offer,
}

-- The IDs and what was parsed of them are the same in both states.
pub record SameIds (s t : State) : Type 0 where
  pub spiffe_id : t.spiffe_id ≡ s.spiffe_id
  pub spiffe_id_trust_domain : t.spiffe_id_trust_domain ≡ s.spiffe_id_trust_domain
  pub spiffe_id_path : t.spiffe_id_path ≡ s.spiffe_id_path
  pub parent_id : t.parent_id ≡ s.parent_id
  pub parent_id_trust_domain : t.parent_id_trust_domain ≡ s.parent_id_trust_domain
  pub parent_id_path : t.parent_id_path ≡ s.parent_id_path
  pub option : t.parent_id_manual_entry_option ≡ s.parent_id_manual_entry_option

pub SameIds-refl : (s : State) → SameIds s s
SameIds-refl s = ground arith

pub SameIds-trans : {s t u : State} → SameIds s t → SameIds t u → SameIds s u
SameIds-trans h k = ground arith

pub recommended-SameIds :
    (e : Option (List Text)) (s : State) → SameIds s (on_change_selectors_recommended e s)
unfolding on_change_selectors_recommended
recommended-SameIds none s = ground arith
recommended-SameIds (some ls) s = ground arith

pub parents_prepared-SameIds :
    (props : Props) (s t : State) → prepare_parent_id_agents_list props s ≡ some t → SameIds s t
unfolding prepare_parent_id_agents_list
parents_prepared-SameIds props s t h = ground arith

pub parents_prepared-selected_server :
    (props : Props) (s t : State)
    → prepare_parent_id_agents_list props s ≡ some t
    → t.selected_server ≡ s.selected_server
unfolding prepare_parent_id_agents_list
parents_prepared-selected_server props s t h = ground arith

-- The form is the same but for the selectors that are offered.
pub record SameForm (s t : State) : Type 0 where
  pub ids : SameIds s t
  pub agents_id_list : t.agents_id_list ≡ s.agents_id_list
  pub selected_server : t.selected_server ≡ s.selected_server

SameForm-refl : (s : State) → SameForm s s
SameForm-refl s = record { ids = SameIds-refl s; agents_id_list = refl; selected_server = refl }

SameForm-trans : {s t u : State} → SameForm s t → SameForm t u → SameForm s u
SameForm-trans h k = record {
  ids = SameIds-trans h.ids k.ids;
  agents_id_list = k.agents_id_list ∙ h.agents_id_list;
  selected_server = k.selected_server ∙ h.selected_server;
}

offer_round-SameForm :
    (found : Bool) (plugin : Text) (info : SelectorInfo) (s : State)
    → SameForm s (if found then offer_for_plugin plugin info s else s)
offer_round-SameForm found plugin info s = ground arith

offer_for_agent-SameForm :
    (id : Text) (info : SelectorInfo) (infos : List AttestorInfo) (done : Bool) (s : State)
    → SameForm s (offer_for_agent id info infos done s).1
unfolding offer_for_agent
offer_for_agent-SameForm id info [] done s = ground arith
offer_for_agent-SameForm id info (i ∷ infos) done s =
    SameForm-trans (offer_round-SameForm (id === i.spiffeid) i.plugin info s)
      (offer_for_agent-SameForm id info infos _ _)

offer_for_server-SameForm : (props : Props) (s : State) → SameForm s (offer_for_server props s)
unfolding offer_for_server
offer_for_server-SameForm props s = ground arith

none_offered-SameForm : (r : Bool × State) → SameForm r.1 (none_offered r)
none_offered-SameForm (true, s) = ground arith
none_offered-SameForm (false, s) = ground arith

abbrev KeepsForm : State → Option State → Type 0
KeepsForm s none = Unit
KeepsForm s (some t) = SameForm s t

if-KeepsForm :
    (b : Bool) (s : State) (t u : Option State)
    → KeepsForm s t
    → KeepsForm s u
    → KeepsForm s (if b then t else u)
if-KeepsForm true s t u h k = h
if-KeepsForm false s t u h k = k

offer_among-KeepsForm :
    (id : Text) (info : SelectorInfo) (infos : Option (List AttestorInfo)) (s : State)
    → KeepsForm s (offer_among id info infos s)
offer_among-KeepsForm id info none s = tt
offer_among-KeepsForm id info (some infos) s =
    SameForm-trans (offer_for_agent-SameForm id info infos false s)
      (none_offered-SameForm (offer_for_agent id info infos false s))

offer-KeepsForm :
    (props : Props) (td : Text) (agents : List Agent) (entries : List Entry) (s : State)
    → KeepsForm s (offer props td agents entries s)
offer-KeepsForm props td agents entries s =
    let id = agent_of_parent s.parent_id agents entries in
    let info = props.global_workload_selector_info in
    let infos = props.global_agents_work_load_attestor_info in
    let among = offer_among id info infos s in
    if-KeepsForm (s.parent_id === (prefix ++ (td ++ codes "/spire/server"))) s
      (some (offer_for_server props s)) (if s.parent_id === [] then some s else among)
      (offer_for_server-SameForm props s)
      (if-KeepsForm (s.parent_id === []) s (some s) among (SameForm-refl s)
        (offer_among-KeepsForm id info infos s))

pub selectors_prepared-SameForm :
    (props : Props) (s t : State) → prepare_selectors_list props s ≡ some t → SameForm s t
unfolding prepare_selectors_list
selectors_prepared-SameForm props s t h = elim (Option-cases props.global_debug_server_info) [
  | inl e ↦ ground arith
  | inr (debug, e) ↦ elim (Option-cases props.global_agents_list) [
    | inl f ↦ ground arith
    | inr (agents, f) ↦ elim (Option-cases props.global_entries_list) [
      | inl g ↦ ground arith
      | inr (entries, g) ↦ elim (Option-cases debug) [
        | inl k ↦ absurd (ground arith)
        | inr (td, k) ↦
            let same : offer props td agents entries s ≡ some t = ground arith in
            subst (KeepsForm s) same (offer-KeepsForm props td agents entries s)
      ]
    ]
  ]
]

pub selectors_prepared-SameIds :
    (props : Props) (s t : State) → prepare_selectors_list props s ≡ some t → SameIds s t
selectors_prepared-SameIds props s t h = (selectors_prepared-SameForm props s t h).ids
