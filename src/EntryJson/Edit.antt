-- ===== src/EntryJson/Edit.antt =====
-- `applyEditToEntry`, which writes the form back into the selected entry.
pub mod Frame
pub mod Shared
pub mod Refine
pub mod Fields
pub mod RoundTrip
mod Tests
use mathlib.Core.Option
use tornjak.Prelude.{
  ℕ, ◌+◌, Bool, true, false, not, Option, none, some, List, [], ◌∷◌, ◌++◌, map, filter, length,
  get_elem?, set, ltb, ◌==◌, if◌then◌else◌,
}
use tornjak.Js.{Text, codes, split, trim}
use tornjak.Types.{SpiffeId, Selector}
use tornjak.Spiffe.Ids.{spiffeid_text}
use tornjak.Config.{truthy}
use tornjak.EntryCreate.Submit.{comma_list, parse_selector}
use tornjak.EntryJson.State.{Upload, Entries, State}
use tornjak.EntryJson.World.{World, array_at, uploaded}

abbrev pub or_blank : Option Selector → Selector
or_blank none = record { type = []; value = [] }
or_blank (some s) = s

abbrev pub is_text : Text → Bool
is_text [] = false
is_text (c ∷ s) = true

-- The selectors of the lines that are not empty; a line without a colon behind a type gives the
-- selector of two empty texts.
unfoldable pub selector_entries : Text → List Selector
unfolding split trim parse_selector
selector_entries text =
    map (λ x. or_blank (parse_selector x)) (filter is_text (map trim (split text 10)))

abbrev pub or_keep {ℓ} : {A : Type ℓ} → Option A → Option A → Option A
or_keep none old = old
or_keep (some v) old = some v

-- The entry with the texts of the form. The list of DNS names is written if its text is not empty,
-- the list of federated trust domains always.
unfoldable pub edited : State → Upload → Upload
unfolding selector_entries comma_list
edited s u = record u {
  spiffe_id = some (record { trust_domain = s.spiffe_id_trust_domain; path = s.spiffe_id_path });
  parent_id = some (record { trust_domain = s.parent_id_trust_domain; path = s.parent_id_path });
  selectors = some (map some (selector_entries s.selectors_list));
  jwt_svid_ttl = or_keep s.jwt_svid_ttl u.jwt_svid_ttl;
  x509_svid_ttl = or_keep s.x509_svid_ttl u.x509_svid_ttl;
  expires_at = or_keep s.expires_at u.expires_at;
  federates_with = some (comma_list s.federates_with);
  dns_names = if length s.dns_names == 0 then u.dns_names else some (comma_list s.dns_names);
  admin = or_keep s.admin_flag u.admin;
  downstream = or_keep s.downstream u.downstream;
}

-- The label of the edited entry.
abbrev pub label_of_edited : State → Text
label_of_edited s =
    spiffeid_text (record { trust_domain = s.spiffe_id_trust_domain; path = s.spiffe_id_path })

abbrev pub after_edit : ℕ → State → State
after_edit i s = record s {
  selected_entry_id = none;
  new_entries_ids = set s.new_entries_ids i (label_of_edited s);
  entry_selected = false;
  parent_id = [];
  spiffe_id = [];
  selectors_list = [];
  x509_svid_ttl = some 0;
  jwt_svid_ttl = some 0;
  expires_at = some 0;
  federates_with = [];
  dns_names = [];
  admin_flag = some false;
  downstream = some false;
}

-- What the method does: it shows a message and returns false, it throws, or it shows the number of
-- the entry and returns true. The world is the one after it.
pub data Applied : Type 0 where
  refused : Text → Applied
  threw : World → Applied
  done : ℕ → World → Applied

-- The write into the array, and then into the labels, which have to be as many.
abbrev pub write_entry : ℕ → Option (Option Upload) → World → Applied
write_entry i none w = threw w
write_entry i (some none) w = threw w
write_entry i (some (some u)) w =
    let address = w.form.uploaded_entries in
    let arrays = set w.arrays address (set (uploaded w) i (some (edited w.form u))) in
    if ltb i (length w.form.new_entries_ids)
    then done (i + 1) (record w { arrays = arrays; form = after_edit i w.form })
    else threw (record w { arrays = arrays })

abbrev pub apply_selected : Option ℕ → World → Applied
apply_selected none w =
    refused
      (codes "Please Select an Entry From the List, and make Necessary Changes to Apply Edit!")
apply_selected (some i) w =
    if not (truthy w.form.spiffe_id_trust_domain)
    then refused (codes "SPIFFE ID Trust Domain Empty/ Invalid, Please Input Trust Domain!")
    else if not (truthy w.form.spiffe_id_path)
    then refused (codes "SPIFFE ID Path Empty/ Invalid, Please Input Path!")
    else if not (truthy w.form.parent_id_trust_domain)
    then refused (codes "Parent ID Trust Domain Empty/ Invalid, Please Input Trust Domain!")
    else if not (truthy w.form.parent_id_path)
    then refused (codes "Parent ID Path Empty/ Invalid, Please Input Path!")
    else if length w.form.selectors_list == 0
    then refused (codes "Selectors List Empty/ Invalid, Please Input Selectors!")
    else write_entry i (get_elem? (uploaded w) i) w

unfoldable pub apply_edit_to_entry : World → Applied
unfolding edited spiffeid_text
apply_edit_to_entry w = apply_selected w.form.selected_entry_id w
