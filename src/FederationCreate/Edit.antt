-- ===== src/FederationCreate/Edit.antt =====
-- The editor of uploaded federations: choosing one and applying a change to it.
use tornjak.Prelude.{
  ℕ, zero, suc, Bool, true, false, not, ◌&&◌, Option, none, some, List, [], ◌∷◌, get_elem?,
  if◌then◌else◌,
}
use tornjak.Js.{Text, trim}
use tornjak.FederationCreate.State.{Relationship, Federation, Uploaded, several, single, State}

abbrev or_empty : Option Text → Text
or_empty none = []
or_empty (some s) = s

abbrev first_url : Option (List Relationship) → Text
first_url none = []
first_url (some []) = []
first_url (some (r ∷ rs)) = or_empty r.bundle_endpoint_url

-- `fedRel?.bundle_endpoint_url || ""`
abbrev pub url_of : Option Federation → Text
url_of none = []
url_of (some fed) = first_url fed.federation_relationships

abbrev pub selected_at : ℕ → Option Federation → State → State
selected_at index fed s = record s {
  selected = some index;
  federation_selected = true;
  exposed_bundle_endpoint = url_of fed;
}

abbrev pub select_in : Uploaded → ℕ → State → State
select_in (several feds) index s = selected_at index (get_elem? feds index) s
select_in (single fed) zero s = selected_at 0 (some fed) s
select_in (single fed) (suc index) s = s

-- `confirmed` is the answer to the question that is asked if a federation is selected already.
unfoldable pub set_selected_federation : Bool → ℕ → State → State
set_selected_federation confirmed index s =
    if s.federation_selected && not confirmed then s else select_in s.uploaded_federation index s

-- The handler of the text field.
unfoldable pub on_change_url : Text → State → State
on_change_url value s = record s { exposed_bundle_endpoint = value }

abbrev pub with_url_first : Text → Option (List Relationship) → Option (List Relationship)
with_url_first url none = none
with_url_first url (some []) = some []
with_url_first url (some (r ∷ rs)) = some (record r { bundle_endpoint_url = some url } ∷ rs)

-- The write to `federation_relationships![0].bundle_endpoint_url`, if there is one.
abbrev pub with_url : Text → Federation → Federation
with_url url fed = record fed {
  federation_relationships = with_url_first url fed.federation_relationships;
}

-- The write at an index, and none out of range.
abbrev pub write_at : ℕ → Text → List Federation → List Federation
write_at i url [] = []
write_at zero url (fed ∷ feds) = with_url url fed ∷ feds
write_at (suc i) url (fed ∷ feds) = fed ∷ write_at i url feds

abbrev pub written : ℕ → Text → Uploaded → Uploaded
written i url (several feds) = several (write_at i url feds)
written zero url (single fed) = single (with_url url fed)
written (suc i) url (single fed) = single fed

abbrev pub applied_to : Option ℕ → State → State × Bool
applied_to none s = (s, false)
applied_to (some i) s = (
  record s {
    uploaded_federation = written i (trim s.exposed_bundle_endpoint) s.uploaded_federation;
    selected = none;
    federation_selected = false;
    exposed_bundle_endpoint = [];
  },
  true,
)

-- The next state, and whether the editor closes with "Updated!".
unfoldable pub apply_edit_to_federation : State → State × Bool
unfolding trim
apply_edit_to_federation s = applied_to s.selected s
