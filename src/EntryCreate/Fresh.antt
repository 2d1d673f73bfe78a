-- ===== src/EntryCreate/Fresh.antt =====
-- What an update leaves of the lists that the form offers.
use tornjak.Prelude.{
  ◌≡◌, refl, subst, sym, ◌∙◌, ap, Bool, true, false, ◌&&◌, ◌||◌, Option, some, List, ◌∷◌, ◌++◌, [],
  arith, if◌then◌else◌, Bool-cases, inl, inr,
}
use tornjak.Js.{Text, codes, ◌===◌}
use tornjak.Types.{Agent, Entry, AttestorInfo}
use tornjak.Spiffe.Ids.{prefix}
use tornjak.Config.{is_manager}
use tornjak.EntryCreate.State.{State, Props}
use tornjak.EntryCreate.ParentIds.{prepare_parent_id_agents_list, fixed_parents}
use tornjak.EntryCreate.ParentIds.Laws.{
  Distinct, with_entries, prepare_parent_id_agents_list-with_entries,
}
use tornjak.EntryCreate.SelectorsList.{prepare_selectors_list, offer}
use tornjak.EntryCreate.Kept.{
  SameIds, SameIds-refl, SameIds-trans, parents_prepared-SameIds, parents_prepared-selected_server,
  selectors_prepared-SameForm,
}
use tornjak.EntryCreate.LifeCycle.{Changed, then_do, when_do, prepared, component_did_update}

-- Both lists and the trust domain are there, and what is known of the agents' attestors.
pub record IsLoaded (props : Props) (trust_domain : Text) (agents : List Agent)
    (entries : List Entry) (infos : List AttestorInfo) : Type 0 where
  pub debug : props.global_debug_server_info ≡ some (some trust_domain)
  pub has_agents : props.global_agents_list ≡ some agents
  pub has_entries : props.global_entries_list ≡ some entries
  pub has_infos : props.global_agents_work_load_attestor_info ≡ some infos
  pub distinct : Distinct agents

-- The state after an update, against the one before: whether the parents were listed anew, from the
-- properties that hold now, and whether the last preparation was that of the selectors.
pub record After (props : Props) (agents : List Agent) (entries : List Entry) (s : State)
    (server : Text) (listed offered : Bool) (t : State) : Type 0 where
  pub ids : SameIds s t
  pub selected_server : t.selected_server ≡ server
  pub parents :
      t.agents_id_list
      ≡ (if listed then fixed_parents props s ++ with_entries entries agents else s.agents_id_list)
  pub selectors :
      offered ≡ true
      → (v : State) × SameIds s v
        × (v.agents_id_list ≡ t.agents_id_list)
        × (prepare_selectors_list props v ≡ some t)

or-false : (b : Bool) → b ≡ (b || false)
or-false b = ground arith

or-true : (b : Bool) → true ≡ (b || true)
or-true b = ground arith

module _ (props : Props) (trust_domain : Text) (agents : List Agent) (entries : List Entry)
    (infos : List AttestorInfo) (loaded : IsLoaded props trust_domain agents entries infos) where
  offered-some : (s : State) → (t : State) × (offer props trust_domain agents entries s ≡ some t)
  offered-some s =
      elim (Bool-cases (s.parent_id === (prefix ++ (trust_domain ++ codes "/spire/server")))) [
        | inl b ↦ rw b (_, refl)
        | inr b ↦ elim (Bool-cases (s.parent_id === [])) [
          | inl c ↦ rw (b, c) (_, refl)
          | inr c ↦ rw (b, c, loaded.has_infos) (_, refl)
        ]
      ]

  selectors-some : (s : State) → (t : State) × (prepare_selectors_list props s ≡ some t)
  unfolding prepare_selectors_list
  selectors-some s =
      let (t, e) = offered-some s in
      (t, ground (arith, e, loaded.debug, loaded.has_agents, loaded.has_entries))

  -- What an update has come to.
  abbrev Came : State → Text → Bool → Bool → Option State → Type 0
  Came s server listed offered o =
      (t : State) × (o ≡ some t) × After props agents entries s server listed offered t

  -- The selectors prepared for a state that an update has come to.
  selectors-After :
      (s : State) (server : Text) (listed offered : Bool) (t : State)
      → After props agents entries s server listed offered t
      → Came s server listed true (then_do (prepare_selectors_list props) (some t))
  selectors-After s server listed offered t m =
      let (u, e) = selectors-some t in
      let k = selectors_prepared-SameForm props t u e in
      (
        u,
        e,
        record {
          ids = SameIds-trans m.ids k.ids;
          selected_server = k.selected_server ∙ m.selected_server;
          parents = k.agents_id_list ∙ m.parents;
          selectors = λ h. (t, m.ids, sym k.agents_id_list, e);
        },
      )

  selectors-Came :
      (s : State) (server : Text) (listed offered b : Bool) (o : Option State)
      → Came s server listed offered o
      → Came s server listed (offered || b) (when_do b (prepare_selectors_list props) o)
  selectors-Came s server listed offered false o came =
      subst (λ q. Came s server listed q o) (or-false offered) came
  selectors-Came s server listed offered true o (t, e, m) =
      subst (λ q. Came s server listed q (then_do (prepare_selectors_list props) o))
        (or-true offered)
        (subst (λ p. Came s server listed true (then_do (prepare_selectors_list props) p)) (sym e)
          (selectors-After s server listed offered t m))

  -- The parents prepared for such a state, from the properties that hold now.
  parents-After :
      (s : State) (server : Text) (listed offered : Bool) (t : State)
      → After props agents entries s server listed offered t
      → (u : State) × (prepare_parent_id_agents_list props t ≡ some u)
        × After props agents entries s server true false u
  parents-After s server listed offered t m =
      let (u, e, list, _) =
        prepare_parent_id_agents_list-with_entries props t trust_domain agents entries loaded.debug
          loaded.has_agents loaded.has_entries loaded.distinct in
      (
        u,
        e,
        record {
          ids = SameIds-trans m.ids (parents_prepared-SameIds props t u e);
          selected_server = parents_prepared-selected_server props t u e ∙ m.selected_server;
          parents =
              list
              ∙ ap
                  (λ option.
                    (option ∷ (prefix ++ (props.server_trust_domain ++ codes "/spire/server")) ∷ [])
                    ++ with_entries entries agents)
                  m.ids.option;
          selectors = λ h. cc;
        },
      )

  both-Came :
      (s : State) (server : Text) (listed offered : Bool) (t : State)
      → After props agents entries s server listed offered t
      → Came s server true true (prepared true props (some t))
  both-Came s server listed offered t m =
      let (u, e, k) = parents-After s server listed offered t m in
      let made : prepared true props (some t) ≡ then_do (prepare_selectors_list props) (some u) =
        ground (arith, e, loaded.has_agents, loaded.has_entries) in
      subst (Came s server true true) (sym made) (selectors-After s server true false u k)

  prepared-Came :
      (s : State) (server : Text) (listed offered b : Bool) (o : Option State)
      → Came s server listed offered o
      → Came s server (listed || b) (offered || b) (prepared b props o)
  prepared-Came s server listed offered false o came =
      subst (λ q. Came s server q (offered || false) o) (or-false listed)
        (subst (λ q. Came s server listed q o) (or-false offered) came)
  prepared-Came s server listed offered true o (t, e, m) =
      subst (λ q. Came s server q (offered || true) (prepared true props o)) (or-true listed)
        (subst (λ q. Came s server true q (prepared true props o)) (or-true offered)
          (subst (λ p. Came s server true true (prepared true props p)) (sym e)
            (both-Came s server listed offered t m)))

  started-Came :
      (s : State) (b : Bool)
      → Came s
          (if b then props.global_server_selected else s.selected_server)
          false
          false
          (some (if b then record s { selected_server = props.global_server_selected } else s))
  started-Came s true = (
    record s { selected_server = props.global_server_selected },
    refl,
    record { ids = ground arith; selected_server = refl; parents = refl; selectors = λ h. cc },
  )
  started-Came s false = (
    s,
    refl,
    record { ids = SameIds-refl s; selected_server = refl; parents = refl; selectors = λ h. cc },
  )

  -- Where both lists, the trust domain and the attestors are there, and no two agents have the same ID, an
  -- update throws nothing. It takes over a changed server in manager mode; it lists the parents anew, from
  -- the agents and the entries that hold now, exactly if these or the debug information have changed; and
  -- if one of them or the parent has changed, the last thing that it does is to prepare the selectors,
  -- for the IDs as they were, with the new list of parents.
  pub component_did_update-After :
      (c : Changed) (s : State)
      → (t : State) × (component_did_update c props s ≡ some t)
        × After props agents entries s
            (if is_manager props.env && c.server
              then props.global_server_selected
              else s.selected_server)
            (c.debug_info || (c.agents || c.entries))
            ((c.debug_info || (c.agents || c.entries)) || c.parent)
            t
  unfolding component_did_update
  component_did_update-After c s =
      let server =
        if is_manager props.env && c.server
        then props.global_server_selected
        else s.selected_server in
      selectors-Came s server _ _ c.parent _ (
        prepared-Came s server c.debug_info c.debug_info (c.agents || c.entries) _ (
          prepared-Came s server false false c.debug_info _
            (started-Came s (is_manager props.env && c.server))))
