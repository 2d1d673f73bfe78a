-- ===== src/JoinToken/Form.antt =====
-- The state of the form, its handlers and `onSubmit`. What `Number` makes of a text is an argument,
-- `JSON.stringify` enters as the text that it gives.
use tornjak.Prelude.{Bool, true, false, not, Option, none, some, List, [], ◌∷◌, ◌++◌, if◌then◌else◌}
use tornjak.Js.{Text, codes, ◌===◌}
use tornjak.Spiffe.Parse.{parse_spiffe_id}
use tornjak.Config.{Env, is_manager, get_api_server_uri, api_endpoint, spire_join_token_api}

pub record State : Type 0 where
  pub name : Text
  pub ttl : Text
  pub token : Text
  pub spiffe_id : Text
  pub message : Text
  pub selected_server : Text

abbrev pub initial : State
initial = record {
  name = [];
  ttl = codes "500";
  token = [];
  spiffe_id = [];
  message = [];
  selected_server = [];
}

-- A number of the language: NaN, at most zero, or positive; the text names the number.
pub data Number : Type 0 where
  nan : Number
  at_most_zero : Text → Number
  positive : Text → Number

-- `cjtData`
pub record Token : Type 0 where
  pub ttl : Number
  pub trust_domain : Text
  pub path : Text
  pub token : Text

-- `componentDidMount` and `componentDidUpdate`: the server of the store, in manager mode.
unfoldable pub component_did_mount : Env → Text → State → State
unfolding is_manager ◌===◌
component_did_mount env global_server_selected s =
    if is_manager env
    then if not (global_server_selected === [])
      then record s { selected_server = global_server_selected }
      else s
    else s

unfoldable pub component_did_update : Env → Text → Text → State → State
unfolding is_manager ◌===◌
component_did_update env previous global_server_selected s =
    if is_manager env
    then if not (previous === global_server_selected)
      then record s { selected_server = global_server_selected }
      else s
    else s

unfoldable pub on_change_name : Text → State → State
on_change_name value s = record s { name = value }

unfoldable pub on_change_ttl : Text → State → State
on_change_ttl value s = record s { ttl = value }

unfoldable pub on_change_token : Text → State → State
on_change_token value s = record s { token = value }

unfoldable pub on_change_spiffe_id : Text → State → State
on_change_spiffe_id value s = record s { spiffe_id = value }

-- The address, with the state after the question for it.
unfoldable pub get_api_token_endpoint : Env → State → State × Text
unfolding is_manager get_api_server_uri api_endpoint ◌===◌
get_api_token_endpoint env s =
    if not (is_manager env)
    then (s, get_api_server_uri env (api_endpoint env spire_join_token_api))
    else if not (s.selected_server === [])
    then (
      s,
      get_api_server_uri env (codes "/manager-api/agent/createjointoken")
          ++ (codes "/" ++ s.selected_server),
    )
    else (record s { message = codes "Error: No server selected" }, [])

-- What pressing the button does at once: the next state, the messages and the request.
pub record Submitted : Type 0 where
  pub state : State
  pub toasts : List Text
  pub request : Option (Text × Token)

abbrev pub refused : List Text → State → Submitted
refused toasts s = record { state = s; toasts = toasts; request = none }

abbrev pub post_to : State × Text → List Text → Token → Submitted
post_to (s, []) toasts t = record { state = s; toasts = toasts; request = none }
post_to (s, x ∷ uri) toasts t = record { state = s; toasts = toasts; request = some (x ∷ uri, t) }

-- The second half, from the data on; `toasts` are the messages so far.
abbrev pub with_id : Bool × Text × Text → Env → List Text → Number → State → Submitted
with_id (false, trust_domain, path) env toasts n s =
    refused (toasts ++ (codes "The SPIFFE id is invalid." ∷ [])) s
with_id (true, trust_domain, path) env toasts n s =
    post_to (get_api_token_endpoint env s) toasts
      (record { ttl = n; trust_domain = trust_domain; path = path; token = s.token })

unfoldable pub submit_data : Env → List Text → Number → State → Submitted
unfolding ◌===◌ parse_spiffe_id get_api_token_endpoint
submit_data env toasts n s =
    if not (s.spiffe_id === [])
    then with_id (parse_spiffe_id s.spiffe_id) env toasts n s
    else post_to (get_api_token_endpoint env s) toasts
        (record { ttl = n; trust_domain = []; path = []; token = s.token })

-- Not a number gives a message, and goes on.
abbrev pub submit_number : Env → Number → State → Submitted
submit_number env nan s = submit_data env (codes "The TTL must be an integer." ∷ []) nan s
submit_number env (at_most_zero n) s = refused (codes "The TTL must be positive." ∷ []) s
submit_number env (positive n) s = submit_data env [] (positive n) s

unfoldable pub on_submit : Env → (Text → Number) → State → Submitted
unfolding ◌===◌ submit_data
on_submit env number s =
    if s.ttl === []
    then refused (codes "The TTL cannot be empty." ∷ []) s
    else submit_number env (number s.ttl) s

unfoldable pub on_submit_answer : Text → Text → State → State
on_submit_answer request answer s = record s {
  message = codes "Request:" ++ (request ++ (codes "\n\nSuccess:" ++ answer));
}
