-- ===== src/FederationCreate/State.antt =====
-- The state of the form, the upload of a file and the request that creates what it holds. A federation
-- is what the form reads of it; `other` has the members under other keys.
use tornjak.Prelude.{ℕ, Bool, true, false, Option, none, some, List, [], ◌∷◌, map}
use tornjak.Js.{Text, codes, ◌===◌}
use tornjak.Prelude.{if◌then◌else◌}
use tornjak.FederationCreate.Json.{Members}
use tornjak.Config.{Env, get_api_server_uri}

pub record Relationship : Type 0 where
  pub trust_domain : Option Text
  pub bundle_endpoint_url : Option Text
  pub other : Members

pub record Federation : Type 0 where
  pub federation_relationships : Option (List Relationship)
  pub other : Members

-- A file holds an array of federations or a single one.
pub data Uploaded : Type 0 where
  several : List Federation → Uploaded
  single : Federation → Uploaded

-- `selected` is `selectedFederationId`, with `none` for -1. The fields `federationJson` and `loading`
-- are shown only.
pub record State : Type 0 where
  pub uploaded_federation : Uploaded
  pub federation_loaded : Bool
  pub status_ok : Text
  pub success_json_message : Text
  pub message : Text
  pub exposed_bundle_endpoint : Text
  pub new_federations_ids : List Text
  pub selected : Option ℕ
  pub federation_selected : Bool

abbrev pub initial : State
initial = record {
  uploaded_federation = several [];
  federation_loaded = false;
  status_ok = [];
  success_json_message = [];
  message = [];
  exposed_bundle_endpoint = [];
  new_federations_ids = [];
  selected = none;
  federation_selected = false;
}

-- `s || "No Trust Domain"`
abbrev or_no_trust_domain : Option Text → Text
or_no_trust_domain none = codes "No Trust Domain"
or_no_trust_domain (some []) = codes "No Trust Domain"
or_no_trust_domain (some (c ∷ s)) = c ∷ s

abbrev pub first_domain : Option (List Relationship) → Text
first_domain none = codes "No Trust Domain"
first_domain (some []) = codes "No Trust Domain"
first_domain (some (r ∷ rs)) = or_no_trust_domain r.trust_domain

-- The `trustDomain` of a federation.
abbrev pub trust_domain_of : Federation → Text
trust_domain_of fed = first_domain fed.federation_relationships

abbrev pub federations : Uploaded → List Federation
federations (several feds) = feds
federations (single fed) = fed ∷ []

-- `handleFileUpload`, from the text of the file on: `parsed` is what `JSON.parse` gives, and `none` if
-- it throws.
unfoldable pub handle_file_upload : Option Uploaded → State → State
handle_file_upload none s = record s {
  message = codes "Invalid JSON format.";
  status_ok = codes "ERROR";
}
handle_file_upload (some uploaded) s = record s {
  uploaded_federation = uploaded;
  federation_loaded = true;
  message = [];
  status_ok = [];
  new_federations_ids = map trust_domain_of (federations uploaded);
}

unfoldable pub on_reader_error : State → State
on_reader_error s = record s {
  message = codes "Error reading the selected file.";
  status_ok = codes "ERROR";
}

-- The handler for removing the file.
unfoldable pub on_delete : State → State
on_delete s = record s {
  uploaded_federation = several [];
  federation_loaded = false;
  message = [];
  status_ok = [];
  new_federations_ids = [];
}

-- The state after the button, and the request. An array of one federation is sent as that one.
abbrev pub sent_of : Uploaded → Option Uploaded
sent_of (several []) = none
sent_of (several (fed ∷ [])) = some (single fed)
sent_of (several (fed ∷ fed' ∷ feds)) = some (several (fed ∷ fed' ∷ feds))
sent_of (single fed) = some (single fed)

abbrev pub submitted : Env → State → Option Uploaded → State × Option (Text × Uploaded)
submitted env s none =
    (record s { message = codes "No federation JSON loaded."; status_ok = codes "ERROR" }, none)
submitted env s (some json_data) = (
  record s { status_ok = [] },
  some (get_api_server_uri env (codes "/api/v1/spire/federations"), json_data),
)

unfoldable pub on_submit : Env → State → State × Option (Text × Uploaded)
unfolding get_api_server_uri
on_submit env s = submitted env s (sent_of s.uploaded_federation)

-- `x || fallback` for a text that may be missing.
abbrev or_text : Option Text → Text → Text
or_text none fallback = fallback
or_text (some []) fallback = fallback
or_text (some (c ∷ t)) fallback = c ∷ t

-- After the answer: the message of its first result, and the text of its data.
unfoldable pub on_response : Option Text → Text → State → State
unfolding ◌===◌
on_response result_message data_ s =
    let response_message = or_text result_message (codes "OK") in
    record s {
      status_ok = if response_message === codes "OK" then codes "OK" else codes "ERROR";
      success_json_message = response_message;
      message = data_;
    }

unfoldable pub on_response_error : Option Text → Text → State → State
on_response_error result_message data_ s = record s {
  status_ok = codes "ERROR";
  success_json_message = or_text result_message (codes "Failed to create federation.");
  message = data_;
}
