-- ===== src/EntryCreate/LifeCycleLaws.antt =====
-- The life cycle makes only steps of the machine.
use tornjak.Prelude.{
  ◌≡◌, refl, subst, Bool, true, false, ◌&&◌, ◌||◌, not, [], Option, none, some, if◌then◌else◌,
  Bool-cases, inl, inr,
}
use tornjak.Js.{Text, codes, ◌===◌}
use tornjak.Config.{is_manager}
use tornjak.EntryCreate.State.{State, Props}
use tornjak.EntryCreate.ParentIds.{prepare_parent_id_agents_list}
use tornjak.EntryCreate.SelectorsList.{prepare_selectors_list}
use tornjak.EntryCreate.LifeCycle.{
  Changed, there, then_do, when_do, prepared, component_did_mount, component_did_update,
}
use tornjak.EntryCreate.Machine.{
  Step, Reach, next, select_server, parents_prepared, selectors_prepared,
}

-- What an update gives, if it throws nothing, can be reached.
abbrev Reached : Option State → Type 0
Reached o = (t : State) → o ≡ some t → Reach t

then_do-Reached :
    (props : Props) (f : State → Option State) (o : Option State)
    → ((s t : State) → f s ≡ some t → Step props s t)
    → Reached o
    → Reached (then_do f o)
then_do-Reached props f none k h t e = cc
then_do-Reached props f (some s) k h t e = next {props = props} (h s refl) (k s t e)

when_do-Reached :
    (props : Props) (b : Bool) (f : State → Option State) (o : Option State)
    → ((s t : State) → f s ≡ some t → Step props s t)
    → Reached o
    → Reached (when_do b f o)
when_do-Reached props true f o k h = then_do-Reached props f o k h
when_do-Reached props false f o k h = h

prepared-Reached :
    (props : Props) (b : Bool) (o : Option State) → Reached o → Reached (prepared b props o)
prepared-Reached props false o h = h
prepared-Reached props true o h =
    then_do-Reached props (prepare_selectors_list props) _ (λ s t e. selectors_prepared t e)
      (when_do-Reached props (there props.global_agents_list && there props.global_entries_list)
        (prepare_parent_id_agents_list props) o (λ s t e. parents_prepared t e) h)

selected-Reach :
    (props : Props) (b : Bool) (s t : State)
    → Reach s
    → (if b then record s { selected_server = props.global_server_selected } else s) ≡ t
    → Reach t
selected-Reach props true s t r e =
    subst Reach e (next {props = props} r (select_server props.global_server_selected))
selected-Reach props false s t r e = subst Reach e r

mounted-Reach :
    (message : Text) (props : Props) (s : State)
    → Reach s
    → Reach (component_did_mount message props s).1
unfolding component_did_mount
mounted-Reach message props s r = elim (Bool-cases (is_manager props.env)) [
  | inl m ↦
      elim (Bool-cases
        (not (props.global_server_selected === []) && (message === codes "OK" || message === []))) [
          | inl b ↦ rw (m, b) (next {props = props} r (select_server props.global_server_selected))
          | inr b ↦ rw (m, b) r
        ]
  | inr m ↦ rw m r
]

some_eq {ℓ} : {A : Type ℓ} {x y : A} → some x ≡ some y → x ≡ y
some_eq e = cc

-- Mounting the form and every update of it, whatever has changed, lead from states that the machine of the
-- form reaches to such states: what holds of all of them holds with the life cycle too.
pub life_cycle-Reach :
    (message : Text) (c : Changed) (props : Props) (s t : State)
    → Reach s
    → component_did_update c props s ≡ some t
    → Reach t × Reach (component_did_mount message props s).1
unfolding component_did_update
life_cycle-Reach message c props s t r h = (
  when_do-Reached props c.parent (prepare_selectors_list props) _ (λ u v e. selectors_prepared v e)
      (prepared-Reached props (c.agents || c.entries) _ (
        prepared-Reached props c.debug_info _
          (λ u e. selected-Reach props (is_manager props.env && c.server) s u r (some_eq e))))
      t h,
  mounted-Reach message props s r,
)
