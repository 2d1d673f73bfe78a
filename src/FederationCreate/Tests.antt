-- ===== src/FederationCreate/Tests.antt =====
-- Tests of the form, and instances of its theorems.
use tornjak.Prelude.{
  Option, if◌then◌else◌, ◌≡◌, ◌≢◌, ◌⊎◌, ℕ, refl, true, false, none, some, List, [], ◌∷◌, ◌++◌, map,
  get_elem?, inl,
}
use tornjak.Js.{◌===◌, Text, codes, trim}
use tornjak.Config.{Env, get_api_server_uri}
use tornjak.FederationCreate.State.{
  on_submit, Federation, Uploaded, several, single, State, initial, trust_domain_of, federations,
  handle_file_upload,
}
use tornjak.FederationCreate.Edit.{with_url, set_selected_federation}
use tornjak.FederationCreate.Laws.{Reach, start, next, upload, select, Reach-Labelled}
use tornjak.FederationCreate.Bundle.{
  bundle_initial, federation_data, on_bundle, bundled, upload-on_bundle,
}
use tornjak.FederationCreate.Json.{
  Json, string, array, object, no_items, no_members, member, member_of, text_property,
}
use tornjak.FederationCreate.Read.{read_file}
use tornjak.FederationCreate.EditLaws.{round, round_done}

abbrev local : Env
local = record {
  api_server_uri = none;
  tornjak_manager = none;
  api_version = codes "v1";
  auth_server_uri = none;
  urljoin = λ a b. a ++ b;
}

abbrev fed_of : Text → Text → Federation
fed_of domain url = record {
  federation_relationships = some (
      record { trust_domain = some domain; bundle_endpoint_url = some url; other = no_members }
      ∷ []);
  other = no_members;
}

abbrev two : Uploaded
two =
    several
      (fed_of (codes "a.org") (codes "https://a") ∷ fed_of (codes "b.org") (codes "https://b") ∷ [])

abbrev loaded : State
loaded = handle_file_upload (some two) initial

abbrev chosen : State
chosen = set_selected_federation true 1 loaded

-- Choosing shows the address of the federation.
shown_url : chosen.exposed_bundle_endpoint ≡ codes "https://b"
unfolding set_selected_federation handle_file_upload
shown_url = refl

chosen-Reach : Reach local chosen
chosen-Reach = next {s = loaded} (next {s = initial} start (upload (some two))) (select true 1)

Reach-Labelled_example :
    chosen.new_federations_ids ≡ map trust_domain_of (federations chosen.uploaded_federation)
Reach-Labelled_example = Reach-Labelled chosen-Reach

loaded-some : federations loaded.uploaded_federation ≢ []
unfolding handle_file_upload
loaded-some = λ e. cc

loaded_two : loaded.uploaded_federation ≡ two
unfolding handle_file_upload
loaded_two = refl

loaded_free : (loaded.federation_selected ≡ false) ⊎ (false ≡ true)
unfolding handle_file_upload
loaded_free = inl refl

round_done_example :
    (edited : List Federation) × ((round false 1 (codes " https://c ") loaded).0.uploaded_federation
      ≡ several edited)
    × (get_elem? edited 1
        ≡ some (with_url (trim (codes " https://c ")) (fed_of (codes "b.org") (codes "https://b"))))
    × ((j : ℕ) → j ≢ 1 → get_elem? edited j ≡ get_elem? (federations two) j)
    × ((round false 1 (codes " https://c ") loaded).0.selected ≡ none)
    × ((round false 1 (codes " https://c ") loaded).1 ≡ true)
round_done_example =
    round_done false 1 (codes " https://c ") (federations two)
      (fed_of (codes "b.org") (codes "https://b")) loaded loaded_two refl loaded_free

chosen_one : chosen.selected ≡ some 1
unfolding set_selected_federation handle_file_upload
chosen_one = refl

-- The answer to the request for the bundle.
abbrev bundle : Json
bundle = object (
    member (codes "trust_domain") (string (codes "c.org"))
      (member (codes "x509_authorities") (array no_items) no_members))

abbrev made : Json
made = federation_data (codes "https://c") bundle

-- A printer and a parser that know this one value.
abbrev show : Json → Text
show j = codes "text"

abbrev parse : Text → Option Json
parse t = if t === codes "text" then some made else none

parse-show : parse (show made) ≡ some made
unfolding ◌===◌
parse-show = refl

abbrev read_back : State
read_back =
    handle_file_upload
      (read_file parse (on_bundle show (codes "https://c") bundle bundle_initial).trust_bundle)
      initial

made_domain : text_property (codes "trust_domain") bundle ≡ some (codes "c.org")
unfolding member_of ◌===◌
made_domain = refl

upload-on_bundle_example :
    (read_back.new_federations_ids ≡ codes "c.org" ∷ [])
    × ((set_selected_federation true 0 read_back).exposed_bundle_endpoint ≡ codes "https://c")
    × ((on_submit local read_back).1
        ≡ some (
          get_api_server_uri local (codes "/api/v1/spire/federations"),
          single (bundled (codes "c.org") (codes "https://c") bundle),
        ))
upload-on_bundle_example =
    upload-on_bundle local show parse (codes "https://c") bundle b'c' (codes ".org") bundle_initial
      initial parse-show made_domain refl
