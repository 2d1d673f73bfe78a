-- ===== src/Servers/Register.antt =====
-- The form that registers a server. The text in base64 (`Buffer`) and `JSON.stringify` are arguments.
use tornjak.Prelude.{Bool, false, Option, none, some, List, [], ◌∷◌, ◌++◌}
use tornjak.Js.{Text, codes}
use tornjak.Types.{Server}
use tornjak.Config.{Env, get_api_server_uri}
use tornjak.Api.Calls.{Reply, resolved, rejected, Effect, toast, dispatch}
use tornjak.Store.Actions.{servers_list}

-- `null` for data is `none`.
pub record State : Type 0 where
  pub form_server_name : Text
  pub form_server_address : Text
  pub form_tls : Bool
  pub form_mtls : Bool
  pub form_ca_data : Option Text
  pub form_cert_data : Option Text
  pub form_key_data : Option Text
  pub ca_file_text : Text
  pub cert_file_text : Text
  pub key_file_text : Text
  pub message : Text
  pub status_ok : Text

abbrev pub initial : State
initial = record {
  form_server_name = [];
  form_server_address = [];
  form_tls = false;
  form_mtls = false;
  form_ca_data = none;
  form_cert_data = none;
  form_key_data = none;
  ca_file_text = [];
  cert_file_text = [];
  key_file_text = [];
  message = [];
  status_ok = [];
}

unfoldable pub on_change_server_name : Option Text → State → State
on_change_server_name none s = s
on_change_server_name (some sid) s = record s { form_server_name = sid }

unfoldable pub on_change_server_address : Option Text → State → State
on_change_server_address none s = s
on_change_server_address (some sid) s = record s { form_server_address = sid }

-- `handleInputChange`: the two boxes of the form.
pub data Box : Type 0 where
  tls mtls : Box

unfoldable pub handle_input_change : Box → Bool → State → State
handle_input_change tls checked s = record s { form_tls = checked }
handle_input_change mtls checked s = record s { form_mtls = checked }

-- What `readAsText` gives; an empty text is false, so nothing happens.
unfoldable pub on_ca_file_change : (Text → Text) → Text → State → State
on_ca_file_change base64 [] s = s
on_ca_file_change base64 (c ∷ result) s = record s {
  form_ca_data = some (base64 (c ∷ result));
  ca_file_text = codes "CA file load success";
}

unfoldable pub on_cert_file_change : (Text → Text) → Text → State → State
on_cert_file_change base64 [] s = s
on_cert_file_change base64 (c ∷ result) s = record s {
  form_cert_data = some (base64 (c ∷ result));
  cert_file_text = codes "cert file load success";
}

unfoldable pub on_key_file_change : (Text → Text) → Text → State → State
on_key_file_change base64 [] s = s
on_key_file_change base64 (c ∷ result) s = record s {
  form_key_data = some (base64 (c ∷ result));
  key_file_text = codes "key file load success";
}

-- `cjtData`
pub record Registration : Type 0 where
  pub name : Text
  pub address : Text
  pub tls_on : Bool
  pub mtls_on : Bool
  pub ca : Option Text
  pub cert : Option Text
  pub key : Option Text

-- The request of `onSubmit`: every registration is sent.
unfoldable pub on_submit : Env → State → Text × Registration
unfolding get_api_server_uri
on_submit env s = (
  get_api_server_uri env (codes "/manager-api/server/register"),
  record {
    name = s.form_server_name;
    address = s.form_server_address;
    tls_on = s.form_tls;
    mtls_on = s.form_mtls;
    ca = s.form_ca_data;
    cert = s.form_cert_data;
    key = s.form_key_data;
  },
)

unfoldable pub on_submit_answer : Text → Text → State → State
on_submit_answer request answer s = record s {
  message = codes "Requst:" ++ (request ++ (codes "\n\nSuccess:" ++ answer));
  status_ok = codes "OK";
}

unfoldable pub on_submit_error : Text → Text → State → State
on_submit_error err data_ s = record s {
  message = codes "ERROR:" ++ (err ++ data_);
  status_ok = codes "ERROR";
}

-- `refreshServerState`, after the answer.
unfoldable pub refresh_server_state : Reply (List Server) → List Effect
refresh_server_state (resolved status status_text servers) = dispatch servers_list servers ∷ []
refresh_server_state (rejected failure) = toast (codes "Could not refresh server state.") ∷ []
