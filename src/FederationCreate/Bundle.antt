-- ===== src/FederationCreate/Bundle.antt =====
-- frontend/src/components/trustbundle-create.tsx: the page that makes a file for this form on another
-- server. `show` stands for `JSON.stringify`.
use tornjak.Prelude.{ℕ, ◌≡◌, ◌∙◌, ap, refl, Bool, true, false, Option, none, some, [], ◌∷◌, ◌++◌}
use tornjak.Js.{Text, codes, to_text, ◌===◌}
use tornjak.Spiffe.Ids.{prefix, text_of}
use tornjak.Config.{Env, get_api_server_uri}
use tornjak.FederationCreate.Json.{
  Json, Members, string, array, object, no_items, item, no_members, member, member_of, without,
  text_property,
}
use tornjak.FederationCreate.State.{Federation, single, State, handle_file_upload, on_submit}
use tornjak.FederationCreate.Read.{
  read_file, uploaded_of_parsed, uploaded_of, federation_of, relationship_of,
}
use tornjak.FederationCreate.Edit.{set_selected_federation}

pub record BundleState : Type 0 where
  pub trust_bundle : Text
  pub loading : Bool
  pub error : Text
  pub bundle_endpoint_url : Text

abbrev pub bundle_initial : BundleState
bundle_initial = record { trust_bundle = []; loading = false; error = []; bundle_endpoint_url = [] }

unfoldable pub handle_input_change : Text → BundleState → BundleState
handle_input_change value s = record s { bundle_endpoint_url = value }

-- The request of `getTrustBundle`, with the state after it.
unfoldable pub get_trust_bundle : Env → BundleState → BundleState × Text
unfolding get_api_server_uri
get_trust_bundle env s = (
  record s { loading = true; error = []; trust_bundle = [] },
  get_api_server_uri env (codes "/api/v1/spire/bundle"),
)

-- A member that `JSON.stringify` leaves out if the value is `undefined`.
abbrev text_member : Text → Option Text → Members → Members
text_member k none ms = ms
text_member k (some t) ms = member k (string t) ms

-- `federationData`. The answer is the bundle, of which the page reads the trust domain. The address is
-- the one that the state held when the request was made.
unfoldable pub federation_data : Text → Json → Json
unfolding member_of
federation_data url original_bundle =
    let trust_domain = text_property (codes "trust_domain") original_bundle in
    let endpoint_spiffe_id = prefix ++ (text_of trust_domain ++ codes "/spire/server") in
    let relationship = object (
      text_member (codes "trust_domain") trust_domain (
        member (codes "bundle_endpoint_url") (string url) (
          member (codes "https_spiffe")
            (object (member (codes "endpoint_spiffe_id") (string endpoint_spiffe_id) no_members))
            (member (codes "trust_domain_bundle") original_bundle no_members)))) in
    object
      (member (codes "federation_relationships") (array (item relationship no_items)) no_members)

unfoldable pub on_bundle : (Json → Text) → Text → Json → BundleState → BundleState
unfolding federation_data
on_bundle show url original_bundle s = record s {
  trust_bundle = show (federation_data url original_bundle);
  loading = false;
}

-- How a request fails.
pub data BundleError : Type 0 where
  responded : ℕ → BundleError
  no_response : BundleError
  no_request : BundleError

abbrev pub bundle_error : BundleError → Text
bundle_error (responded status) =
    codes "Failed to fetch trust bundle. Server returned status " ++ to_text status
bundle_error no_response = codes "Failed to fetch trust bundle. No response received from backend."
bundle_error no_request = codes "Failed to fetch trust bundle. Could not connect to backend"

unfoldable pub on_bundle_error : BundleError → BundleState → BundleState
unfolding to_text
on_bundle_error e s = record s { loading = false; error = bundle_error e }

-- What is saved: nothing for an empty text.
unfoldable pub download_trust_bundle : BundleState → Option Text
download_trust_bundle s = elim s.trust_bundle [ [] ↦ none | ◌∷◌ c t ↦ some (c ∷ t) ]

-- What the file says besides the trust domain and the address.
abbrev pub profile_and_bundle : Text → Json → Members
profile_and_bundle trust_domain bundle =
    member (codes "https_spiffe")
      (object (
        member (codes "endpoint_spiffe_id")
          (string (codes "spiffe://" ++ (trust_domain ++ codes "/spire/server"))) no_members))
      (member (codes "trust_domain_bundle") bundle no_members)

-- The federation that the file is about.
abbrev pub bundled : Text → Text → Json → Federation
bundled trust_domain url bundle = record {
  federation_relationships = some (
      record {
        trust_domain = some trust_domain;
        bundle_endpoint_url = some url;
        other = profile_and_bundle trust_domain bundle;
      }
      ∷ []);
  other = no_members;
}

uploaded_of-federation_data :
    (url : Text) (bundle : Json) (c : ℕ) (t : Text)
    → text_property (codes "trust_domain") bundle ≡ some (c ∷ t)
    → uploaded_of (federation_data url bundle) ≡ some (single (bundled (c ∷ t) url bundle))
unfolding federation_data uploaded_of member_of without federation_of relationship_of ◌===◌
uploaded_of-federation_data url bundle c t domain = rw domain refl

read_file-on_bundle :
    (show : Json → Text) (parse : Text → Option Json) (url : Text) (bundle : Json) (c : ℕ)
    (t : Text) (b : BundleState)
    → parse (show (federation_data url bundle)) ≡ some (federation_data url bundle)
    → text_property (codes "trust_domain") bundle ≡ some (c ∷ t)
    → read_file parse (on_bundle show url bundle b).trust_bundle
      ≡ some (single (bundled (c ∷ t) url bundle))
unfolding on_bundle
read_file-on_bundle show parse url bundle c t b h domain =
    ap uploaded_of_parsed h ∙ uploaded_of-federation_data url bundle c t domain

-- A file that this page made is read by the form for federations as one federation of the bundle's trust
-- domain, whose address in the editor is the one that was typed here, and which the button sends with
-- the server's SPIFFE ID and the bundle: if `JSON.parse` reads back the value that `JSON.stringify` wrote,
-- the trust domain is not empty, and no federation was selected before.
pub upload-on_bundle :
    (env : Env) (show : Json → Text) (parse : Text → Option Json) (url : Text) (bundle : Json)
    (c : ℕ) (t : Text) (b : BundleState) (s : State)
    → parse (show (federation_data url bundle)) ≡ some (federation_data url bundle)
    → text_property (codes "trust_domain") bundle ≡ some (c ∷ t)
    → s.federation_selected ≡ false
    → let file = (on_bundle show url bundle b).trust_bundle in
      let after = handle_file_upload (read_file parse file) s in
      (after.new_federations_ids ≡ (c ∷ t) ∷ [])
      × ((set_selected_federation true 0 after).exposed_bundle_endpoint ≡ url)
      × ((on_submit env after).1
          ≡ some (
            get_api_server_uri env (codes "/api/v1/spire/federations"),
            single (bundled (c ∷ t) url bundle),
          ))
unfolding handle_file_upload set_selected_federation on_submit
upload-on_bundle env show parse url bundle c t b s h domain free =
    rw (read_file-on_bundle show parse url bundle c t b h domain, free) (refl, refl, refl)
