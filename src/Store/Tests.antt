-- ===== src/Store/Tests.antt =====
-- Instances of the theorems on the store.
use tornjak.Prelude.{◌≡◌, ◌++◌, [], ◌∷◌, true}
use tornjak.Js.{Text, codes}
use tornjak.Store.Actions.{Action, server_selected, is_authenticated}
use tornjak.Store.Reducers.{initial_state, dispatch_all}
use tornjak.Store.Registers.{read, read-dispatch_all_last}

abbrev select : Text → Action
select name = record { type = server_selected; payload = name }

abbrev log_in : Action
log_in = record { type = is_authenticated; payload = true }

read-dispatch_all_last_example :
    read server_selected
      (dispatch_all initial_state ((select (codes "a") ∷ []) ++ select (codes "b") ∷ log_in ∷ []))
    ≡ codes "b"
read-dispatch_all_last_example =
    read-dispatch_all_last initial_state server_selected (codes "b") (select (codes "a") ∷ [])
      (log_in ∷ []) (λ e. cc, tt)
