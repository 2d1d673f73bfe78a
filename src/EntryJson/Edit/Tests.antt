-- ===== src/EntryJson/Edit/Tests.antt =====
-- Tests of the form, and instances of its theorems.
use tornjak.Prelude.{get_elem?, ℕ, ◌+◌, ◌≡◌, refl, true, false, none, some, [], ◌∷◌, arith, inr}
use tornjak.Js.{Text, codes}
use tornjak.Types.{SpiffeId, Selector}
use tornjak.EntryJson.State.{Upload, on_change, jwt_ttl}
use tornjak.EntryJson.World.{World, start, uploaded, stored}
use tornjak.EntryJson.Load.{Parsed, entries, labels, handle_change, on_load, click_entry}
use tornjak.EntryJson.Edit.{apply_edit_to_entry, done, edited}
use tornjak.EntryJson.Edit.Frame.{Wrote, apply_edit_to_entry_done}
use tornjak.EntryJson.Edit.Shared.{
  Reach, begin, next, change, load, input, applied, stored-uploaded,
}
use tornjak.EntryJson.Edit.Refine.{edited_at, apply_edit_to_entry-edited_at}
use tornjak.EntryJson.Edit.Fields.{IsLine, IsName}
use tornjak.EntryJson.Edit.RoundTrip.{IsRegular, written, apply_edit_to_entry-click_entry}

abbrev id_of : Text → SpiffeId
id_of path = record { trust_domain = some (codes "e.org"); path = some path }

abbrev unix : Selector
unix = record { type = codes "unix"; value = codes "uid:1" }

abbrev web : Upload
web = record {
  spiffe_id = some (id_of (codes "/web"));
  parent_id = some (id_of (codes "/node"));
  selectors = some (some unix ∷ []);
  jwt_svid_ttl = none;
  x509_svid_ttl = some 60;
  expires_at = none;
  federates_with = some [];
  dns_names = some (codes "a.org" ∷ codes "b.org" ∷ []);
  admin = some false;
  downstream = none;
  other = [];
}

abbrev opened : World
opened = handle_change true (start [])

abbrev two_webs : Parsed
two_webs = entries (some web ∷ some web ∷ [])

abbrev file_read : World
file_read = on_load false two_webs opened

-- The first entry is in the form once the file is read.
in_form : file_read.form.dns_names ≡ codes "a.org,b.org"
unfolding handle_change on_load start
in_form = refl

abbrev left : World
left = record file_read { form = record file_read.form { entry_selected = false } }

abbrev ready : World
ready = record file_read { form = on_change (jwt_ttl 5) file_read.form }

abbrev after : World
after = written 0 web ready

after_apply : apply_edit_to_entry ready ≡ done 1 after
unfolding apply_edit_to_entry handle_change on_load start on_change
after_apply = refl

file_read-Reach : Reach true file_read
unfolding handle_change on_load start labels
file_read-Reach =
    next {w = opened} (next {w = start []} (begin []) (change true))
      (load false two_webs (omega arith))

ready-Reach : Reach true ready
ready-Reach = next {w = file_read} file_read-Reach (input (jwt_ttl 5))

after-Reach : Reach true after
after-Reach = next {w = ready} ready-Reach (applied 1 after after_apply)

-- The edited entry has the time that was typed.
edited_ttl : (edited ready.form web).jwt_svid_ttl ≡ some 5
unfolding edited handle_change on_load start on_change
edited_ttl = refl

stored-uploaded_example : stored after ≡ uploaded after
unfolding handle_change on_load start on_change
stored-uploaded_example = stored-uploaded after after-Reach (λ e. cc)

apply_edit_to_entry_done_example :
    (i : ℕ) × (ready.form.selected_entry_id ≡ some i) × (1 ≡ i + 1) × Wrote ready i after
apply_edit_to_entry_done_example = apply_edit_to_entry_done ready after 1 after_apply

unix-IsLine : IsLine unix
unfolding tornjak.Js.trim tornjak.Spiffe.Selectors.format_selectors
unix-IsLine = record {
  typed = λ e. cc;
  no_colon = ground arith;
  no_newline = ground arith;
  trimmed = refl;
}

name_a-IsName : IsName (codes "a.org")
unfolding tornjak.Js.trim
name_a-IsName = record { nonempty = λ e. cc; no_comma = ground arith; trimmed = refl }

name_b-IsName : IsName (codes "b.org")
unfolding tornjak.Js.trim
name_b-IsName = record { nonempty = λ e. cc; no_comma = ground arith; trimmed = refl }

web-IsRegular : IsRegular web
web-IsRegular = record {
  spiffe = (id_of (codes "/web"), refl, refl, refl);
  parent = (id_of (codes "/node"), refl, refl, refl);
  lines = (unix, [], refl, (unix-IsLine, tt));
  federated = ([], refl, tt);
  named = (codes "a.org" ∷ codes "b.org" ∷ [], inr refl, (name_a-IsName, (name_b-IsName, tt)));
}

apply_edit_to_entry-click_entry_example :
    (v : World) × (apply_edit_to_entry (click_entry false 1 left) ≡ done 2 v)
    × (v.arrays ≡ left.arrays)
unfolding handle_change on_load start
apply_edit_to_entry-click_entry_example =
    apply_edit_to_entry-click_entry left false 1 web refl refl (omega arith) web-IsRegular

apply_edit_to_entry-edited_at_example :
    (i : ℕ) × (u : Upload) × (ready.form.selected_entry_id ≡ some i)
    × (get_elem? (uploaded ready) i ≡ some (some u))
    × (stored ready ≡ uploaded ready)
    × (stored after ≡ edited_at ready i u (uploaded ready))
unfolding handle_change on_load start on_change
apply_edit_to_entry-edited_at_example =
    apply_edit_to_entry-edited_at ready after 1 ready-Reach after_apply

-- A second file whose entry has no SPIFFE ID is refused by the form and taken by the store, and a
-- cancelled choice takes the notice away.
abbrev no_id : Upload
no_id = record web { spiffe_id = none }

abbrev refused : World
refused =
    handle_change false (on_load true (entries (some no_id ∷ [])) (handle_change true file_read))

refused_apart :
    (refused.form.parse_error ≡ false)
    × (stored refused ≡ some no_id ∷ [])
    × (uploaded refused ≡ some web ∷ some web ∷ [])
unfolding handle_change on_load start
refused_apart = (refl, refl, refl)
