-- ===== src/Servers/Tests.antt =====
-- Tests of the form, and instances of its theorems.
use tornjak.Prelude.{◌≡◌, ◌≢◌, ◌↔◌, refl, true, false, none, some, [], ◌++◌}
use tornjak.Js.{Text, codes}
use tornjak.Config.{Env}
use tornjak.Servers.Register.{
  State, initial, tls, handle_input_change, on_ca_file_change, on_submit,
}
use tornjak.Servers.Select.{get_server}
use tornjak.Servers.Laws.{Reach, start, next, ca, box, on_submit_files}

abbrev manager : Env
manager = record {
  api_server_uri = none;
  tornjak_manager = some (codes "true");
  api_version = codes "v1";
  auth_server_uri = none;
  urljoin = λ a b. a ++ b;
}

abbrev base64 : Text → Text
base64 t = t

abbrev loaded : State
loaded = on_ca_file_change base64 (codes "pem") (handle_input_change tls true initial)

abbrev off : State
off = handle_input_change tls false loaded

-- The certificate is sent though TLS is off again, and its field is not shown.
sent_though_off : (on_submit manager off).1.ca ≡ some (codes "pem")
unfolding on_submit on_ca_file_change handle_input_change
sent_though_off = refl

no_server : get_server (codes "s") [] ≡ none
unfolding get_server
no_server = refl

off-Reach : Reach base64 off
off-Reach =
    next {s = loaded}
      (next {s = handle_input_change tls true initial} (next {s = initial} start (box tls true))
        (ca (codes "pem")))
      (box tls false)

on_submit_files_example :
    (((on_submit manager off).1.ca ≢ none) ↔ (off.ca_file_text ≡ codes "CA file load success"))
    × (((on_submit manager off).1.cert ≢ none)
        ↔ (off.cert_file_text ≡ codes "cert file load success"))
    × (((on_submit manager off).1.key ≢ none) ↔ (off.key_file_text ≡ codes "key file load success"))
on_submit_files_example = on_submit_files manager base64 off off-Reach
