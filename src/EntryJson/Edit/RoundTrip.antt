-- ===== src/EntryJson/Edit/RoundTrip.antt =====
-- An entry that is brought into the form and written back unchanged.
use mathlib.Core.Option
use tornjak.Prelude.{
  ℕ, zero, suc, ltb, ◌+◌, ◌<◌, ◌≡◌, ◌≢◌, refl, ◌∙◌, ap, sym, subst, Bool, true, false, ◌&&◌, Option,
  none, some, List, [], ◌∷◌, map, arith, All, get_elem?, set, length, ◌==◌, if◌then◌else◌, ◌⊎◌, inl,
  inr,
}
use tornjak.Js.{Text, join}
use tornjak.Types.{SpiffeId, Selector}
use tornjak.Config.{truthy}
use tornjak.Spiffe.Selectors.{format_selectors}
use tornjak.EntryCreate.Submit.{comma_list}
use tornjak.EntryCreate.Submit.Typed.{append-cons-ne-nil}
use tornjak.EntryJson.State.{Upload, Entries, State}
use tornjak.EntryJson.World.{World, array_at, uploaded}
use tornjak.EntryJson.Load.{
  click_entry, set_selected_entries_ids, comma_joined, with_entry, fill, or_same, shown_selectors,
  trust_domain_of, path_of,
}
use tornjak.EntryJson.Edit.{apply_edit_to_entry, done, edited, or_keep, write_entry, after_edit}
use tornjak.EntryJson.Edit.Fields.{
  IsLine, IsName, lines_of, selector_lines-lines_of, selector_entries-lines_of, comma_list-join,
}

-- An ID with both parts.
abbrev pub IsWhole : Option SpiffeId → Type 0
IsWhole o =
    (id : SpiffeId) × (o ≡ some id) × (truthy id.trust_domain ≡ true) × (truthy id.path ≡ true)

-- An entry that the form can show whole: both IDs are whole, there are selectors, each on a line, and
-- the lists hold names.
pub record IsRegular (u : Upload) : Type 0 where
  pub spiffe : IsWhole u.spiffe_id
  pub parent : IsWhole u.parent_id
  pub lines :
      (s : Selector) × (ss : List Selector) × (u.selectors ≡ some (map some (s ∷ ss)))
      × All IsLine (s ∷ ss)
  pub federated : (ts : List Text) × (u.federates_with ≡ some ts) × All IsName ts
  pub named : (ts : List Text) × ((u.dns_names ≡ none) ⊎ (u.dns_names ≡ some ts)) × All IsName ts

whole_id :
    (o : Option SpiffeId)
    → IsWhole o
    → some (record { trust_domain = trust_domain_of o; path = path_of o }) ≡ o
whole_id none (id, e, _, _) = cc
whole_id (some id) _ = refl

or_keep_self {ℓ} : {A : Type ℓ} (o : Option A) → or_keep o o ≡ o
or_keep_self none = refl
or_keep_self (some v) = refl

-- The form that shows the entry.
abbrev shown : ℕ → Upload → State → List Selector → State
shown i u s ss = with_entry i u s (lines_of ss)

kept_names :
    (o : Option (List Text)) (ts : List Text)
    → (o ≡ none) ⊎ (o ≡ some ts)
    → All IsName ts
    → (if length (comma_joined o) == 0 then o else some (comma_list (comma_joined o))) ≡ o
kept_names none ts h _ = refl
kept_names (some []) ts h _ = unfold join in refl
kept_names (some (t ∷ us)) ts (inl e) hs = cc
kept_names (some (t ∷ us)) ts (inr e) hs =
    let same : ts ≡ t ∷ us = cc in
    let named : All IsName (t ∷ us) = subst (All IsName) same hs in
    rw (comma_list-join (t ∷ us) named) (ground arith)

edited-shown :
    (i : ℕ) (u : Upload) (s : State) (ss : List Selector)
    → IsRegular u
    → u.selectors ≡ some (map some ss)
    → All IsLine ss
    → edited (shown i u s ss) u ≡ u
unfolding edited
edited-shown i u s ss r e h =
    let (ts, fed, names) = r.federated in
    let (us, dns, names2) = r.named in
    let fed_back : some (comma_list (comma_joined u.federates_with)) ≡ u.federates_with =
      rw fed (ap some (comma_list-join ts names)) in
    rw
      (
        whole_id u.spiffe_id r.spiffe,
        whole_id u.parent_id r.parent,
        selector_entries-lines_of ss h,
        fed_back,
        kept_names u.dns_names us dns names2,
        or_keep_self u.jwt_svid_ttl,
        or_keep_self u.x509_svid_ttl,
        or_keep_self u.expires_at,
        or_keep_self u.admin,
        or_keep_self u.downstream,
        sym e,
      )
      refl

passed :
    (i : ℕ) (w : World) (m : Option (Option Upload))
    → truthy w.form.spiffe_id_trust_domain ≡ true
    → truthy w.form.spiffe_id_path ≡ true
    → truthy w.form.parent_id_trust_domain ≡ true
    → truthy w.form.parent_id_path ≡ true
    → w.form.selectors_list ≢ []
    → w.form.selected_entry_id ≡ some i
    → apply_edit_to_entry w ≡ write_entry i (get_elem? (uploaded w) i) w
unfolding apply_edit_to_entry
passed i w m h1 h2 h3 h4 h5 h6 = ground arith

set_same {ℓ} :
    {A : Type ℓ} (xs : List A) (i : ℕ) (v : A) → get_elem? xs i ≡ some v → set xs i v ≡ xs
set_same [] i v h = refl
set_same (x ∷ xs) zero v h = ground (arith, h)
set_same (x ∷ xs) (suc i) v h = ap (λ l. x ∷ l) (set_same xs i v h)

set-array_at : (arrays : List Entries) (a : ℕ) → set arrays a (array_at a arrays) ≡ arrays
set-array_at [] a = refl
set-array_at (x ∷ arrays) zero = refl
set-array_at (x ∷ arrays) (suc a) = ap (λ l. x ∷ l) (set-array_at arrays a)

-- The world after a write.
abbrev pub written : ℕ → Upload → World → World
written i u w = record w {
  arrays = set w.arrays w.form.uploaded_entries (set (uploaded w) i (some (edited w.form u)));
  form = after_edit i w.form;
}

write_entry-written :
    (i : ℕ) (u : Upload) (w : World) (m : Option (Option Upload))
    → m ≡ some (some u)
    → i < length w.form.new_entries_ids
    → write_entry i m w ≡ done (i + 1) (written i u w)
write_entry-written i u w m e h =
    rw e (let b : ltb i (length w.form.new_entries_ids) ≡ true = ground arith in rw b refl)

written_same :
    (i : ℕ) (u : Upload) (w : World)
    → get_elem? (uploaded w) i ≡ some (some u)
    → edited w.form u ≡ u
    → (written i u w).arrays ≡ w.arrays
written_same i u w h e =
    rw (e, set_same (uploaded w) i (some u) h) (set-array_at w.arrays w.form.uploaded_entries)

-- The world in which the entry is in the form.
abbrev chosen : ℕ → Upload → List Selector → World → World
chosen i u ss w = record w { form = shown i u w.form ss }

fill_shown :
    (i : ℕ) (u : Upload) (s : State) (x : Selector) (ss : List Selector)
    → u.selectors ≡ some (map some (x ∷ ss))
    → fill i (some (some u)) s ≡ some (shown i u s (x ∷ ss))
fill_shown i u s x ss e =
    let ls : shown_selectors u.selectors ≡ some (lines_of (x ∷ ss)) =
      ap shown_selectors e ∙ selector_lines-lines_of (x ∷ ss) in
    ap (Option.map (with_entry i u s)) ls

not_asked : (b c : Bool) (x y : Option State) → b ≡ false → (if b && c then x else y) ≡ y
not_asked true c x y h = cc
not_asked false c x y h = refl

clicked :
    (w : World) (confirmed : Bool) (i : ℕ) (u : Upload) (x : Selector) (ss : List Selector)
    → w.form.entry_selected ≡ false
    → get_elem? (uploaded w) i ≡ some (some u)
    → u.selectors ≡ some (map some (x ∷ ss))
    → click_entry confirmed i w ≡ chosen i u (x ∷ ss) w
unfolding click_entry set_selected_entries_ids
clicked w confirmed i u x ss free here e =
    ap (λ o. record w { form = or_same w.form o })
      (not_asked w.form.entry_selected confirmed (some w.form)
          (fill i (get_elem? (uploaded w) i) w.form) free
        ∙ ap (λ m. fill i m w.form) here
        ∙ fill_shown i u w.form x ss e)

lines_of-ne-nil : (x : Selector) (ss : List Selector) → lines_of (x ∷ ss) ≢ []
lines_of-ne-nil x ss = append-cons-ne-nil (format_selectors x) 10 (lines_of ss)

whole_parts :
    (o : Option SpiffeId)
    → IsWhole o
    → (truthy (trust_domain_of o) ≡ true) × (truthy (path_of o) ≡ true)
whole_parts o (id, e, td, p) = rw e (td, p)

-- An entry of the file that the form can show whole, brought into the form by a click and applied
-- without a change, leaves every array as it was.
pub apply_edit_to_entry-click_entry :
    (w : World) (confirmed : Bool) (i : ℕ) (u : Upload)
    → w.form.entry_selected ≡ false
    → get_elem? (uploaded w) i ≡ some (some u)
    → i < length w.form.new_entries_ids
    → IsRegular u
    → (v : World) × (apply_edit_to_entry (click_entry confirmed i w) ≡ done (i + 1) v)
      × (v.arrays ≡ w.arrays)
apply_edit_to_entry-click_entry w confirmed i u free here labelled r =
    let (x, ss, sel, hl) = r.lines in
    let c = chosen i u (x ∷ ss) w in
    let (std, sp) = whole_parts u.spiffe_id r.spiffe in
    let (ptd, pp) = whole_parts u.parent_id r.parent in
    (
      written i u c,
      ap apply_edit_to_entry (clicked w confirmed i u x ss free here sel)
          ∙ passed i c (some (some u)) std sp ptd pp (lines_of-ne-nil x ss) refl
          ∙ write_entry-written i u c (get_elem? (uploaded c) i) here labelled,
      written_same i u c here (edited-shown i u w.form (x ∷ ss) r sel hl),
    )
