-- ===== src/FederationCreate/Read.antt =====
-- From the text of a file to the federations in it: `JSON.parse` in `handleFileUpload`, and the keys
-- that the form reads of the objects. The texts among them are texts or missing, by the type
-- `Federation`; a file of any other shape is left out.
use tornjak.Prelude.{Option, none, some, List, [], ◌∷◌, map}
use tornjak.Js.{Text, codes}
use tornjak.FederationCreate.Json.{
  Json, Members, literal, string, array, object, items, no_members, member_of, without, property,
  text_property,
}
use tornjak.FederationCreate.State.{Relationship, Federation, Uploaded, several, single}

abbrev members : Json → Members
members (literal t) = no_members
members (string t) = no_members
members (array js) = no_members
members (object ms) = ms

unfoldable pub relationship_of : Json → Relationship
unfolding member_of without
relationship_of j = record {
  trust_domain = text_property (codes "trust_domain") j;
  bundle_endpoint_url = text_property (codes "bundle_endpoint_url") j;
  other = without (codes "trust_domain" ∷ codes "bundle_endpoint_url" ∷ []) (members j);
}

-- `federation_relationships`, if it is there.
abbrev relationships : Option Json → Option (List Relationship)
relationships none = none
relationships (some (literal t)) = none
relationships (some (string t)) = none
relationships (some (array js)) = some (map relationship_of (items js))
relationships (some (object ms)) = none

unfoldable pub federation_of : Json → Federation
unfolding relationship_of member_of without
federation_of j = record {
  federation_relationships = relationships (property (codes "federation_relationships") j);
  other = without (codes "federation_relationships" ∷ []) (members j);
}

-- `Array.isArray`
unfoldable pub uploaded_of : Json → Option Uploaded
unfolding federation_of
uploaded_of (literal t) = none
uploaded_of (string t) = none
uploaded_of (array js) = some (several (map federation_of (items js)))
uploaded_of (object ms) = some (single (federation_of (object ms)))

abbrev pub uploaded_of_parsed : Option Json → Option Uploaded
uploaded_of_parsed none = none
uploaded_of_parsed (some j) = uploaded_of j

-- `parse` stands for `JSON.parse`, with `none` for what it throws.
abbrev pub read_file : (Text → Option Json) → Text → Option Uploaded
read_file parse result = uploaded_of_parsed (parse result)
