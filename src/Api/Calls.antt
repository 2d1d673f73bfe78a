-- ===== src/Api/Calls.antt =====
-- Requests, answers and their effects.
use tornjak.Prelude.{ℕ, Option, none, some, List, [], ◌∷◌}
use tornjak.Js.{Text}
use tornjak.Store.Actions.{Kind, Payload, Action, Failure}
use tornjak.Store.Reducers.{RootState, all_reducers}

-- An answer: its status, its status text and what its data holds, or an error.
pub data Reply (A : Type 0) : Type 0 where
  resolved : ℕ → Text → A → Reply A
  rejected : Failure → Reply A

pub data Method : Type 0 where
  get post delete : Method

-- What a request carries.
pub data Body : Type 0 where
  nothing : Body
  input : Text → Body
  wload_attdata : Text → Text → Body
  cluster_name : Text → Body
  entry_ids : List Text → Body
  server_name : Text → Body

-- One thing that a handler does: a dispatch, a message on the screen with its caption, or a call of
-- one of the two functions that refresh the selectors.
pub data Effect : Type 0 where
  act : Action → Effect
  toast : Text → Effect
  refresh_local : Effect
  refresh : Text → Effect

abbrev pub dispatch : (k : Kind) → Payload k → Effect
dispatch k p = act (record { type = k; payload = p })

-- A method of the class: what it does at once, its request, and what the answer does.
pub record Call (A : Type 0) : Type 0 where
  pub before : List Effect
  pub method : Method
  pub uri : Text
  pub body : Body
  pub handle : Reply A → List Effect

-- The effects on the store.
unfoldable pub run : List Effect → RootState → RootState
unfolding all_reducers
run [] s = s
run (act a ∷ effects) s = run effects (all_reducers s a)
run (toast caption ∷ effects) s = run effects s
run (refresh_local ∷ effects) s = run effects s
run (refresh server ∷ effects) s = run effects s

-- `if (!data) [] else data`
abbrev pub or_empty {ℓ} : {A : Type ℓ} → Option (List A) → List A
or_empty none = []
or_empty (some xs) = xs
