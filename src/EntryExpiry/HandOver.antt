-- ===== src/EntryExpiry/HandOver.antt =====
-- `componentDidUpdate` of frontend/src/components/entry-expiry-features.tsx hands the time to the
-- store, from which the form that creates entries takes it. React calls it after every change of the
-- state, also after one to the same values; it is not called when the choice is mounted.
use tornjak.Prelude.{◌≡◌, ◌≢◌, refl, ◌∙◌, Bool, true, false, Option, ℤ, if◌then◌else◌}
use tornjak.Js.{Text}
use tornjak.Store.Actions.{Kind, entry_expiry}
use tornjak.Store.Reducers.{RootState, all_reducers}
use tornjak.Store.Registers.{read, read-all_reducers_self, read-all_reducers_ne}
use tornjak.EntryExpiry.Form.{
  State, initial, on_change_expiry_option, on_change_expires_at_seconds, on_change_expires_at_date,
  on_change_expires_at_time,
}

unfoldable pub component_did_update : State → RootState → RootState
unfolding all_reducers
component_did_update s store =
    all_reducers store (record { type = entry_expiry; payload = s.expires_at })

-- The handlers of the choice.
pub data Step (moment : Text → Option ℤ) (s : State) : State → Type 0 where
  option : (item : Text) → Step moment s (on_change_expiry_option item s)
  typed : (value : Option ℤ) → Step moment s (on_change_expires_at_seconds value s)
  date : (value : Text) → Step moment s (on_change_expires_at_date moment value s)
  time : (value : Text) → Step moment s (on_change_expires_at_time moment value s)

-- The choice from its mounting on, over the store that it is mounted above: whether the user has
-- touched it, its state, and the store.
pub data Run (moment : Text → Option ℤ) (before : RootState)
    : Bool → State → RootState → Type 0 where
  mount : Run moment before false initial before
  update :
      {touched : Bool} {s t : State} {store : RootState}
      → Run moment before touched s store
      → Step moment s t
      → Run moment before true t (component_did_update t store)

-- The store holds the time of the choice once the user has touched it, and what it held before the
-- choice was mounted until then, though the choice shows that there is no expiry.
pub read-Run :
    (moment : Text → Option ℤ) (before : RootState) (touched : Bool) (s : State) (store : RootState)
    → Run moment before touched s store
    → read entry_expiry store ≡ (if touched then s.expires_at else read entry_expiry before)
unfolding component_did_update
read-Run moment before _ _ _ mount = refl
read-Run moment before _ _ _ (update {t = t} {store = store} r step) =
    read-all_reducers_self store entry_expiry t.expires_at

-- The choice changes nothing else of the store.
pub read-Run_ne :
    (moment : Text → Option ℤ) (before : RootState) (touched : Bool) (s : State) (store : RootState)
    (k : Kind)
    → Run moment before touched s store
    → k ≢ entry_expiry
    → read k store ≡ read k before
unfolding component_did_update
read-Run_ne moment before _ _ _ k mount h = refl
read-Run_ne moment before _ _ _ k (update {t = t} {store = store} r step) h =
    read-all_reducers_ne store k entry_expiry t.expires_at h
    ∙ read-Run_ne moment before _ _ store k r h
