-- ===== src/EntryJson/State.antt =====
-- The entries of a file, the state of the form and the handlers of its fields.
use tornjak.Prelude.{
  ℕ, Bool, true, false, Option, none, some, List, [], ◌++◌, length, drop, ◌==◌, if◌then◌else◌,
}
use tornjak.Js.{Text}
use tornjak.Types.{SpiffeId, Selector}
use tornjak.Spiffe.Ids.{prefix, text_of}
use tornjak.Spiffe.Parse.{parse_spiffe_id}

-- An entry as `JSON.parse` gives it: each field is there or missing, and a selector may be `null`.
-- `other` stands for the fields that the form neither reads nor writes.
pub record Upload : Type 0 where
  pub spiffe_id : Option SpiffeId
  pub parent_id : Option SpiffeId
  pub selectors : Option (List (Option Selector))
  pub jwt_svid_ttl : Option ℕ
  pub x509_svid_ttl : Option ℕ
  pub expires_at : Option ℕ
  pub federates_with : Option (List Text)
  pub dns_names : Option (List Text)
  pub admin : Option Bool
  pub downstream : Option Bool
  pub other : Text

-- An array of entries, in which `none` is `null`.
abbrev pub Entries : Type 0
Entries = List (Option Upload)

-- The state. `selectedEntryId` is `none` for -1; `uploaded_entries` is the address of an array;
-- `prefix` never changes, and `newEntrySelected` and `yamlFormSpiffeId` are never read.
pub record State : Type 0 where
  pub parse_error : Bool
  pub is_entries_loaded : Bool
  pub new_entries_ids : List Text
  pub selected_entry_id : Option ℕ
  pub uploaded_entries : ℕ
  pub spiffe_id_trust_domain : Option Text
  pub spiffe_id_path : Option Text
  pub spiffe_id : Text
  pub parent_id_trust_domain : Option Text
  pub parent_id_path : Option Text
  pub parent_id : Text
  pub selectors_list : Text
  pub jwt_svid_ttl : Option ℕ
  pub x509_svid_ttl : Option ℕ
  pub expires_at : Option ℕ
  pub federates_with : Text
  pub dns_names : Text
  pub admin_flag : Option Bool
  pub downstream : Option Bool
  pub entry_selected : Bool
  pub spiffe_id_prefix : Text
  pub new_entries_loaded : Bool
  pub new_file_uploaded : Bool

unfoldable pub initial : ℕ → State
initial empty = record {
  parse_error = false;
  is_entries_loaded = false;
  new_entries_ids = [];
  selected_entry_id = none;
  uploaded_entries = empty;
  spiffe_id_trust_domain = some [];
  spiffe_id_path = some [];
  spiffe_id = [];
  parent_id_trust_domain = some [];
  parent_id_path = some [];
  parent_id = [];
  selectors_list = [];
  jwt_svid_ttl = some 0;
  x509_svid_ttl = some 0;
  expires_at = some 0;
  federates_with = [];
  dns_names = [];
  admin_flag = some false;
  downstream = some false;
  entry_selected = false;
  spiffe_id_prefix = [];
  new_entries_loaded = false;
  new_file_uploaded = false;
}

-- The handlers of the fields, as one function of what was typed or chosen. Where an event may be
-- missing, nothing happens, as at no event at all. The first four are for the parts of the IDs, whose
-- fields the form does not show.
pub data Input : Type 0 where
  spiffe_id_trust_domain : Text → Input
  spiffe_id_path : Text → Input
  parent_id_trust_domain : Text → Input
  parent_id_path : Text → Input
  selectors : Text → Input
  jwt_ttl : ℕ → Input
  x509_ttl : ℕ → Input
  expires_at : ℕ → Input
  dns_names : Text → Input
  federates_with : Text → Input
  admin_flag : Bool → Input
  down_stream : Bool → Input
  spiffe_id : Text → Input
  parent_id : Text → Input
  parent_id_input : Text → Input

abbrev pub set_spiffe_id : Bool × Text × Text → State → State
set_spiffe_id (true, trust_domain, path) s = record s {
  spiffe_id_trust_domain = some trust_domain;
  spiffe_id_path = some path;
}
set_spiffe_id (false, trust_domain, path) s = record s {
  spiffe_id_trust_domain = some [];
  spiffe_id_path = some [];
}

unfoldable pub on_change_spiffe_id : Text → State → State
unfolding parse_spiffe_id
on_change_spiffe_id sid s =
    if length sid == 0
    then record s { spiffe_id = sid; spiffe_id_trust_domain = some []; spiffe_id_path = some [] }
    else set_spiffe_id (parse_spiffe_id sid) (record s { spiffe_id = sid })

-- The field of the SPIFFE ID puts the prefix in front of what was typed behind it.
unfoldable pub on_input_spiffe_id : Text → State → State
unfolding on_change_spiffe_id
on_input_spiffe_id input s =
    on_change_spiffe_id (s.spiffe_id_prefix ++ drop (length s.spiffe_id_prefix) input) s

-- The choice of a parent moves the SPIFFE ID into the parent's trust domain.
abbrev pub choose_parent : Text → Bool × Text × Text → State → State
choose_parent sid (true, trust_domain, path) s = record s {
  parent_id_trust_domain = some trust_domain;
  parent_id_path = some path;
  spiffe_id = prefix ++ (trust_domain ++ text_of s.spiffe_id_path);
  parent_id = sid;
  spiffe_id_prefix = prefix ++ trust_domain;
  spiffe_id_trust_domain = some trust_domain;
}
choose_parent sid (false, trust_domain, path) s = record s {
  parent_id_trust_domain = some [];
  parent_id_path = some [];
}

unfoldable pub on_change_parent_id : Text → State → State
unfolding parse_spiffe_id
on_change_parent_id sid s = choose_parent sid (parse_spiffe_id sid) s

abbrev pub set_parent_id : Bool × Text × Text → State → State
set_parent_id (true, trust_domain, path) s = record s {
  parent_id_trust_domain = some trust_domain;
  parent_id_path = some path;
}
set_parent_id (false, trust_domain, path) s = record s {
  parent_id_trust_domain = some [];
  parent_id_path = some [];
}

unfoldable pub on_change_parent_id_input : Text → State → State
unfolding parse_spiffe_id
on_change_parent_id_input sid s =
    if length sid == 0
    then record s { parent_id = sid; parent_id_trust_domain = some []; parent_id_path = some [] }
    else set_parent_id (parse_spiffe_id sid) (record s { parent_id = sid })

unfoldable pub on_change : Input → State → State
unfolding on_input_spiffe_id on_change_parent_id on_change_parent_id_input
on_change (spiffe_id_trust_domain value) s = record s { spiffe_id_trust_domain = some value }
on_change (spiffe_id_path value) s = record s { spiffe_id_path = some value }
on_change (parent_id_trust_domain value) s = record s { parent_id_trust_domain = some value }
on_change (parent_id_path value) s = record s { parent_id_path = some value }
on_change (selectors value) s = record s { selectors_list = value }
on_change (jwt_ttl n) s = record s { jwt_svid_ttl = some n }
on_change (x509_ttl n) s = record s { x509_svid_ttl = some n }
on_change (expires_at n) s = record s { expires_at = some n }
on_change (dns_names sid) s = record s { dns_names = sid }
on_change (federates_with sid) s = record s { federates_with = sid }
on_change (admin_flag selected) s = record s { admin_flag = some selected }
on_change (down_stream selected) s = record s { downstream = some selected }
on_change (spiffe_id input) s = on_input_spiffe_id input s
on_change (parent_id sid) s = on_change_parent_id sid s
on_change (parent_id_input sid) s = on_change_parent_id_input sid s

-- Bound in the constructor, and called by nothing in the program.
unfoldable pub handle_modal_submit : State → State
handle_modal_submit s = record s {
  parent_id = [];
  spiffe_id = [];
  selectors_list = [];
  x509_svid_ttl = some 0;
  jwt_svid_ttl = some 0;
  expires_at = some 0;
  federates_with = [];
  dns_names = [];
  admin_flag = some false;
  downstream = some false;
  entry_selected = false;
}

-- The file is taken away.
unfoldable pub on_delete : ℕ → State → State
on_delete empty s = record s {
  parse_error = false;
  is_entries_loaded = false;
  new_entries_ids = [];
  uploaded_entries = empty;
  new_entries_loaded = false;
  entry_selected = false;
  selected_entry_id = none;
}
