-- ===== src/EntryCreate/LifeCycle.antt =====
-- `componentDidMount` and `componentDidUpdate`: which requests are made and which lists are prepared.
use tornjak.Prelude.{
  Bool, true, false, not, ◌&&◌, ◌||◌, Option, none, some, List, [], ◌∷◌, if◌then◌else◌,
}
use tornjak.Js.{Text, codes, ◌===◌}
use tornjak.Config.{is_manager}
use tornjak.EntryCreate.State.{State, Props}
use tornjak.EntryCreate.ParentIds.{prepare_parent_id_agents_list}
use tornjak.EntryCreate.SelectorsList.{prepare_selectors_list}

-- What the form calls when it is mounted, with the server in manager mode. `clear_new_entries` is
-- `newEntriesUpdateFunc([])`.
pub data Asked : Type 0 where
  populate_agents_update populate_entries_update refresh_selectors_state : Text → Asked
  populate_local_agents_update populate_local_entries_update : Asked
  populate_local_tornjak_server_info populate_server_info clear_new_entries : Asked

unfoldable pub component_did_mount : Text → Props → State → List Asked × State
unfolding is_manager ◌===◌
component_did_mount message props s =
    if is_manager props.env
    then if not (props.global_server_selected === []) && (message === codes "OK" || message === [])
      then (
        populate_agents_update props.global_server_selected
            ∷ populate_entries_update props.global_server_selected
            ∷ refresh_selectors_state props.global_server_selected
            ∷ [],
        record s { selected_server = props.global_server_selected },
      )
      else ([], s)
    else (
      populate_local_agents_update ∷ populate_local_entries_update
          ∷ populate_local_tornjak_server_info ∷ populate_server_info ∷ clear_new_entries ∷ [],
      s,
    )

-- Which properties, and whether the parent in the state, differ from those before.
pub record Changed : Type 0 where
  pub server : Bool
  pub debug_info : Bool
  pub agents : Bool
  pub entries : Bool
  pub parent : Bool

abbrev pub there {ℓ} : {A : Type ℓ} → Option A → Bool
there none = false
there (some x) = true

abbrev pub then_do : (State → Option State) → Option State → Option State
then_do f none = none
then_do f (some s) = f s

abbrev pub when_do : Bool → (State → Option State) → Option State → Option State
when_do b f o = if b then then_do f o else o

-- The parents if both lists are there, and then the selectors.
abbrev pub prepare_both : Props → Option State → Option State
prepare_both props o = then_do (prepare_selectors_list props) (
    when_do (there props.global_agents_list && there props.global_entries_list)
      (prepare_parent_id_agents_list props) o)

abbrev pub prepared : Bool → Props → Option State → Option State
prepared b props o = if b then prepare_both props o else o

-- `none` is an error that is thrown. The two preparations read nothing of the state that another one
-- sets in the same update.
unfoldable pub component_did_update : Changed → Props → State → Option State
unfolding is_manager prepare_parent_id_agents_list prepare_selectors_list
component_did_update c props s =
    let first =
      if is_manager props.env && c.server
      then record s { selected_server = props.global_server_selected }
      else s in
    when_do c.parent (prepare_selectors_list props)
      (prepared (c.agents || c.entries) props (prepared c.debug_info props (some first)))
