-- ===== src/EntryJson/Load.antt =====
-- `handleChange`, which reads a file, and `setSelectedEntriesIds`, which brings an entry into the
-- form. `JSON.parse` enters as its result.
use mathlib.Core.Option
use tornjak.Prelude.{
  ℕ, suc, ◌-◌, Bool, true, false, ◌&&◌, Option, none, some, List, [], ◌∷◌, ◌++◌, length, get_elem?,
  if◌then◌else◌,
}
use tornjak.Js.{Text, codes, join}
use tornjak.Types.{SpiffeId, Selector}
use tornjak.Spiffe.Ids.{prefix, spiffeid_text, text_of}
use tornjak.Spiffe.Selectors.{format_selectors}
use tornjak.EntryJson.State.{Upload, Entries, State}
use tornjak.EntryJson.World.{World, array_at}

-- What a file gives: `JSON.parse` throws or gives `null`, there is no array under `entries`, or
-- there is.
pub data Parsed : Type 0 where
  no_json : Parsed
  no_entries : Parsed
  entries : Entries → Parsed

abbrev or_path : Text → SpiffeId → Text
or_path [] id = text_of id.path
or_path (c ∷ s) id = c ∷ s

-- The label of an entry in the list. A `null`, or an entry without `spiffe_id`, throws.
abbrev pub label : Option Upload → Option Text
label none = none
label (some u) = Option.map (λ id. or_path (spiffeid_text id) id) u.spiffe_id

-- The loop over the entries.
unfoldable pub labels : Entries → Option (List Text)
unfolding spiffeid_text
labels [] = some []
labels (e ∷ es) = elim (label e) [ none ↦ none | some l ↦ Option.map (λ ls. l ∷ ls) (labels es) ]

abbrev pub trust_domain_of : Option SpiffeId → Option Text
trust_domain_of none = some []
trust_domain_of (some id) = id.trust_domain

abbrev pub path_of : Option SpiffeId → Option Text
path_of none = some []
path_of (some id) = id.path

abbrev pub shown_parts : Option Text → Option Text → Text
shown_parts (some trust_domain) (some path) = prefix ++ (trust_domain ++ path)
shown_parts (some trust_domain) none = prefix ++ trust_domain
shown_parts none (some path) = path
shown_parts none none = []

abbrev pub shown_id : Option SpiffeId → Text
shown_id none = []
shown_id (some id) = shown_parts id.trust_domain id.path

-- Every selector on a line of its own. A `null` throws.
unfoldable pub selector_lines : List (Option Selector) → Option Text
unfolding format_selectors
selector_lines [] = some []
selector_lines (none ∷ ss) = none
selector_lines (some s ∷ ss) =
    Option.map (λ rest. format_selectors s ++ (10 ∷ rest)) (selector_lines ss)

-- A `null` in the first place hides all selectors.
abbrev pub shown_selectors : Option (List (Option Selector)) → Option Text
shown_selectors none = some []
shown_selectors (some []) = some []
shown_selectors (some (none ∷ ss)) = some []
shown_selectors (some (some s ∷ ss)) = selector_lines (some s ∷ ss)

-- `toString` of an array, or "" for a missing one.
abbrev pub comma_joined : Option (List Text) → Text
comma_joined none = []
comma_joined (some ts) = join ts (codes ",")

abbrev pub with_entry : ℕ → Upload → State → Text → State
with_entry id u s lines = record s {
  selected_entry_id = some id;
  spiffe_id_trust_domain = trust_domain_of u.spiffe_id;
  spiffe_id_path = path_of u.spiffe_id;
  spiffe_id = shown_id u.spiffe_id;
  parent_id = shown_id u.parent_id;
  parent_id_trust_domain = trust_domain_of u.parent_id;
  parent_id_path = path_of u.parent_id;
  selectors_list = lines;
  x509_svid_ttl = u.x509_svid_ttl;
  jwt_svid_ttl = u.jwt_svid_ttl;
  expires_at = u.expires_at;
  federates_with = comma_joined u.federates_with;
  dns_names = comma_joined u.dns_names;
  admin_flag = u.admin;
  downstream = u.downstream;
  entry_selected = true;
  spiffe_id_prefix = prefix ++ text_of (trust_domain_of u.spiffe_id);
}

-- The entry is `undefined` or `null`, or there is one. The first two throw.
abbrev pub fill : ℕ → Option (Option Upload) → State → Option State
fill id none s = none
fill id (some none) s = none
fill id (some (some u)) s = Option.map (with_entry id u s) (shown_selectors u.selectors)

abbrev pub given_or : Option (Option Upload) → Option (Option Upload) → Option (Option Upload)
given_or none other = other
given_or (some e) other = some e

-- `setSelectedEntriesIds(id, id, given)`, in which `this_state` is what the method reads, and `s` the
-- state that its `setState` comes to. `confirmed` answers the question, if it is asked. `none` is an
-- error that is thrown.
unfoldable pub set_selected_entries_ids :
    Bool → List Entries → State → ℕ → Option (Option Upload) → State → Option State
unfolding selector_lines join
set_selected_entries_ids confirmed arrays this_state id given s =
    if this_state.entry_selected && confirmed
    then some s
    else fill id (given_or given (get_elem? (array_at this_state.uploaded_entries arrays) id)) s

-- `handleChange`: the notices are reset at once, whether or not a file was chosen (`if (yamlFile)`), and
-- the reading of a chosen file begins.
unfoldable pub handle_change : Bool → World → World
handle_change yaml_file w = record w {
  form = record w.form {
    parse_error = false;
    is_entries_loaded = true;
    new_entries_loaded = false;
  };
  reading = if yaml_file then suc w.reading else w.reading;
}

-- A reading that fails ends without the event `load`, for which alone there is a listener.
unfoldable pub read_failed : World → World
read_failed w = record w { reading = w.reading - 1 }

abbrev pub failed : State → State
failed s = record s { parse_error = true; new_file_uploaded = false }

-- The `catch`: the updates that were made before the error stay.
abbrev pub or_failed : State → Option State → State
or_failed s none = failed s
or_failed s (some t) = t

-- The new file is the one that the form shows.
abbrev pub with_file : ℕ → List Text → State → State
with_file address ls s = record s {
  parse_error = false;
  new_entries_ids = ls;
  uploaded_entries = address;
  new_entries_loaded = true;
}

abbrev pub with_labels : Bool → List Entries → ℕ → Entries → Option (List Text) → State → State
with_labels confirmed arrays address es none s = failed s
with_labels confirmed arrays address es (some ls) s =
    let t = with_file address ls s in
    or_failed t (set_selected_entries_ids confirmed arrays s 0 (get_elem? es 0) t)

-- The listener for `load`, some time after `handleChange`. React collects the updates of the listener, so
-- all of it reads the state from before. A reading that was begun as text gives a text.
unfoldable pub on_load : Bool → Parsed → World → World
unfolding set_selected_entries_ids labels
on_load confirmed no_json w = record w { form = failed w.form; reading = w.reading - 1 }
on_load confirmed no_entries w = record w { form = failed w.form; reading = w.reading - 1 }
on_load confirmed (entries es) w =
    let address = length w.arrays in
    let arrays = w.arrays ++ es ∷ [] in
    record {
      arrays = arrays;
      global_new_entries = address;
      reading = w.reading - 1;
      form = with_labels confirmed arrays address es (labels es) w.form;
    }

-- A click on an entry of the list. An error leaves everything as it was.
abbrev pub or_same : State → Option State → State
or_same s none = s
or_same s (some t) = t

unfoldable pub click_entry : Bool → ℕ → World → World
unfolding set_selected_entries_ids
click_entry confirmed id w = record w {
  form = or_same w.form (set_selected_entries_ids confirmed w.arrays w.form id none w.form);
}
