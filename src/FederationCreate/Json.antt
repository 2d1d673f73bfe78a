-- ===== src/FederationCreate/Json.antt =====
-- The values of JSON, as far as the federation pages read and write them.
use tornjak.Prelude.{Option, none, some, List, [], ◌∷◌, if◌then◌else◌}
use tornjak.Js.{Text, ◌===◌, includes}

-- `literal` is a number, a Boolean or `null`, by its text.
mutual
  pub data Json : Type 0 where
    literal : Text → Json
    string : Text → Json
    array : Items → Json
    object : Members → Json

  pub data Items : Type 0 where
    no_items : Items
    item : Json → Items → Items

  pub data Members : Type 0 where
    no_members : Members
    member : Text → Json → Members → Members

abbrev pub items : Items → List Json
items no_items = []
items (item j js) = j ∷ items js

-- The value under a key.
unfoldable pub member_of : Text → Members → Option Json
unfolding ◌===◌
member_of k no_members = none
member_of k (member l j ms) = if l === k then some j else member_of k ms

-- `value[k]` of an object; other values have no property of the names in use here.
abbrev pub property : Text → Json → Option Json
property k (literal t) = none
property k (string t) = none
property k (array js) = none
property k (object ms) = member_of k ms

-- The members under other keys.
unfoldable pub without : List Text → Members → Members
without ks no_members = no_members
without ks (member l j ms) =
    let rest = without ks ms in if includes ks l then rest else member l j rest

abbrev pub as_text : Option Json → Option Text
as_text none = none
as_text (some (literal t)) = none
as_text (some (string t)) = some t
as_text (some (array js)) = none
as_text (some (object ms)) = none

-- A property that is a text, by the type that the source gives it, or missing.
abbrev pub text_property : Text → Json → Option Text
text_property k j = as_text (property k j)
