-- ===== src/EntryJson/Edit/Shared.antt =====
-- The form and the store hold the same entries, through every change.
use tornjak.Prelude.{
  ℕ, ◌<◌, ◌≤◌, ◌≡◌, ◌≢◌, ◌⊎◌, inl, inr, refl, ◌∙◌, ap, sym, subst, Bool, true, false, ◌&&◌, Option,
  none, some, List, [], ◌∷◌, ◌++◌, arith, length, get_elem?, drop, ◌==◌, if◌then◌else◌,
  length-append, Bool-cases, Option-cases,
}
use tornjak.Js.{Text}
use tornjak.Spiffe.Parse.{parse_spiffe_id}
use tornjak.EntryJson.State.{
  Upload, Entries, State, Input, on_change, on_input_spiffe_id, on_change_spiffe_id,
  on_change_parent_id, on_change_parent_id_input, on_delete, initial, set_spiffe_id, choose_parent,
  set_parent_id, spiffe_id_trust_domain, spiffe_id_path, parent_id_trust_domain, parent_id_path,
  selectors, jwt_ttl, x509_ttl, expires_at, dns_names, federates_with, admin_flag, down_stream,
  spiffe_id, parent_id, parent_id_input,
}
use tornjak.EntryJson.World.{World, array_at, uploaded, stored, start}
use tornjak.EntryJson.Load.{
  Parsed, no_json, no_entries, entries, labels, on_load, handle_change, read_failed, or_failed,
  or_same, fill, given_or, with_file, with_labels, set_selected_entries_ids, click_entry,
  shown_selectors, with_entry,
}
use tornjak.EntryJson.Edit.{apply_edit_to_entry, done, threw}
use tornjak.EntryJson.Edit.Frame.{Wrote, apply_edit_to_entry_done, apply_edit_to_entry_threw}

-- One event. A file is chosen, or the choice of one is cancelled; its reading ends later, with any events in
-- between. `componentDidUpdate` hands the uploaded entries to the store again when the list of agents
-- has changed.
pub data Step (w : World) : World → Type 0 where
  change : (yaml_file : Bool) → Step w (handle_change yaml_file w)
  load : (confirmed : Bool) (parsed : Parsed) → 1 ≤ w.reading → Step w (on_load confirmed parsed w)
  no_load : 1 ≤ w.reading → Step w (read_failed w)
  click : (confirmed : Bool) (id : ℕ) → Step w (click_entry confirmed id w)
  input : (i : Input) → Step w (record w { form = on_change i w.form })
  delete : Step w (record w { form = on_delete 0 w.form })
  agents_changed : Step w (record w { global_new_entries = w.form.uploaded_entries })
  applied : (n : ℕ) (v : World) → apply_edit_to_entry w ≡ done n v → Step w v
  apply_threw : (v : World) → apply_edit_to_entry w ≡ threw v → Step w v

-- Whether the form takes up the entries of a file that the store has taken: its loop over them throws
-- at an entry without SPIFFE ID, after the store has been told.
abbrev pub took : Option (List Text) → Bool
took none = false
took (some ls) = true

-- A record of the past: no file whose entries the store took was refused by the form, since the last one
-- that it took up, or since the form handed its entries to the store again.
abbrev pub in_step : {w v : World} → Step w v → Bool → Bool
in_step (load confirmed (entries es) _) before = took (labels es)
in_step agents_changed before = true
in_step _ before = before

pub data Reach : Bool → World → Type 0 where
  begin : (held : Entries) → Reach true (start held)
  next : {b : Bool} {w v : World} → Reach b w → (s : Step w v) → Reach (in_step s b) v

-- The form has no entries, or the array of the store, if they are in step.
pub record IsShared (b : Bool) (w : World) : Type 0 where
  pub none_at_zero : array_at 0 w.arrays ≡ []
  pub some_arrays : 0 < length w.arrays
  pub same :
      b ≡ true → (w.form.uploaded_entries ≡ 0) ⊎ (w.global_new_entries ≡ w.form.uploaded_entries)

-- A form with the same array.
abbrev pub Same : State → State → Type 0
Same s t = t.uploaded_entries ≡ s.uploaded_entries

form-IsShared :
    {b : Bool} (w : World) (t : State) (n : ℕ)
    → Same w.form t
    → IsShared b w
    → IsShared b (record w { form = t; reading = n })
form-IsShared w t n ha m = record {
  none_at_zero = m.none_at_zero;
  some_arrays = m.some_arrays;
  same = λ h. elim (m.same h) [ inl e ↦ inl (ha ∙ e) | inr e ↦ inr (e ∙ sym ha) ];
}

if-Same : (b : Bool) (s x y : State) → Same s x → Same s y → Same s (if b then x else y)
if-Same true s x y hx hy = hx
if-Same false s x y hx hy = hy

set_spiffe_id-Same : (r : Bool × Text × Text) (s : State) → Same s (set_spiffe_id r s)
set_spiffe_id-Same (true, td, p) s = refl
set_spiffe_id-Same (false, td, p) s = refl

choose_parent-Same :
    (sid : Text) (r : Bool × Text × Text) (s : State) → Same s (choose_parent sid r s)
choose_parent-Same sid (true, td, p) s = refl
choose_parent-Same sid (false, td, p) s = refl

set_parent_id-Same : (r : Bool × Text × Text) (s : State) → Same s (set_parent_id r s)
set_parent_id-Same (true, td, p) s = refl
set_parent_id-Same (false, td, p) s = refl

on_change_spiffe_id-Same : (sid : Text) (s : State) → Same s (on_change_spiffe_id sid s)
unfolding on_change_spiffe_id
on_change_spiffe_id-Same sid s =
    if-Same (length sid == 0) s _ _ refl
      (set_spiffe_id-Same (parse_spiffe_id sid) (record s { spiffe_id = sid }))

on_change-Same : (i : Input) (s : State) → Same s (on_change i s)
unfolding on_change on_input_spiffe_id on_change_parent_id on_change_parent_id_input
on_change-Same (spiffe_id_trust_domain value) s = refl
on_change-Same (spiffe_id_path value) s = refl
on_change-Same (parent_id_trust_domain value) s = refl
on_change-Same (parent_id_path value) s = refl
on_change-Same (selectors value) s = refl
on_change-Same (jwt_ttl n) s = refl
on_change-Same (x509_ttl n) s = refl
on_change-Same (expires_at n) s = refl
on_change-Same (dns_names sid) s = refl
on_change-Same (federates_with sid) s = refl
on_change-Same (admin_flag b) s = refl
on_change-Same (down_stream b) s = refl
on_change-Same (spiffe_id t) s =
    on_change_spiffe_id-Same (s.spiffe_id_prefix ++ drop (length s.spiffe_id_prefix) t) s
on_change-Same (parent_id sid) s = choose_parent-Same sid (parse_spiffe_id sid) s
on_change-Same (parent_id_input sid) s =
    if-Same (length sid == 0) s _ _ refl
      (set_parent_id-Same (parse_spiffe_id sid) (record s { parent_id = sid }))

fill-Same : (id : ℕ) (e : Option (Option Upload)) (s t : State) → fill id e s ≡ some t → Same s t
fill-Same id none s t h = cc
fill-Same id (some none) s t h = cc
fill-Same id (some (some u)) s t h = elim (Option-cases (shown_selectors u.selectors)) [
  | inl e ↦ let h2 = rw e at h in cc
  | inr (lines, e) ↦
      let same : with_entry id u s lines ≡ t = (let h2 = rw e at h in cc) in
      subst (Same s) same refl
]

selected-Same :
    (confirmed : Bool) (arrays : List Entries) (this_state : State) (id : ℕ)
    (given : Option (Option Upload)) (s t : State)
    → set_selected_entries_ids confirmed arrays this_state id given s ≡ some t
    → Same s t
unfolding set_selected_entries_ids
selected-Same confirmed arrays this_state id given s t h =
    elim (Bool-cases (this_state.entry_selected && confirmed)) [
      | inl b ↦ let same : s ≡ t = (let h2 = rw b at h in cc) in subst (Same s) same refl
      | inr b ↦
          fill-Same id (given_or given (get_elem? (array_at this_state.uploaded_entries arrays) id))
            s t (rw b at h)
    ]

click_entry-Same :
    (w : World) (m : Option State)
    → ((t : State) → m ≡ some t → Same w.form t)
    → Same w.form (or_same w.form m)
click_entry-Same w none k = refl
click_entry-Same w (some t) k = k t refl

or_failed-Same :
    (t : State) (m : Option State) → ((r : State) → m ≡ some r → Same t r) → Same t (or_failed t m)
or_failed-Same t none k = refl
or_failed-Same t (some r) k = k r refl

-- The form has the new array if it takes the entries up, whatever fails after that.
with_labels-took :
    (confirmed : Bool) (arrays : List Entries) (address : ℕ) (es : Entries) (m : Option (List Text))
    (s : State)
    → took m ≡ true
    → (with_labels confirmed arrays address es m s).uploaded_entries ≡ address
with_labels-took confirmed arrays address es none s h = cc
with_labels-took confirmed arrays address es (some ls) s h =
    let t = with_file address ls s in
    or_failed-Same t (set_selected_entries_ids confirmed arrays s 0 (get_elem? es 0) t)
      (λ r e. selected-Same confirmed arrays s 0 (get_elem? es 0) t r e)

array_at-append :
    (arrays : List Entries) (es : Entries)
    → 0 < length arrays
    → array_at 0 (arrays ++ es ∷ []) ≡ array_at 0 arrays
array_at-append [] es h = elim h [ ]
array_at-append (x ∷ arrays) es h = refl

on_load-IsShared :
    {b : Bool} (confirmed : Bool) (parsed : Parsed) (w : World) (r : 1 ≤ w.reading)
    → IsShared b w
    → IsShared (in_step {w = w} (load confirmed parsed r) b) (on_load confirmed parsed w)
unfolding on_load
on_load-IsShared confirmed no_json w r m = form-IsShared w _ _ refl m
on_load-IsShared confirmed no_entries w r m = form-IsShared w _ _ refl m
on_load-IsShared confirmed (entries es) w r m = record {
  none_at_zero = array_at-append w.arrays es m.some_arrays ∙ m.none_at_zero;
  some_arrays = omega (arith, length-append w.arrays (es ∷ []));
  same = λ h. inr (
      sym (
        with_labels-took confirmed (w.arrays ++ es ∷ []) (length w.arrays) es (labels es) w.form
          h));
}

Wrote-IsShared : {b : Bool} (w v : World) (i : ℕ) → Wrote w i v → IsShared b w → IsShared b v
Wrote-IsShared w v i k m = record {
  none_at_zero =
      k.others 0 (λ e.
        let b =
          ap (λ es. get_elem? es i) (sym (ap (λ a. array_at a w.arrays) e) ∙ m.none_at_zero) in
        let c = sym b ∙ k.before in cc)
      ∙ m.none_at_zero;
  some_arrays = omega (arith, k.count, m.some_arrays);
  same = λ h. elim (m.same h) [
    | inl e ↦ inl (k.address ∙ e)
    | inr e ↦ inr (k.store ∙ e ∙ sym k.address)
  ];
}

Step-IsShared : {b : Bool} {w v : World} (s : Step w v) → IsShared b w → IsShared (in_step s b) v
unfolding click_entry on_delete handle_change read_failed
Step-IsShared {w = w} (change yaml_file) m = form-IsShared w _ _ refl m
Step-IsShared {w = w} (load confirmed parsed r) m = on_load-IsShared confirmed parsed w r m
Step-IsShared {w = w} (no_load r) m = form-IsShared w w.form _ refl m
Step-IsShared {w = w} (click confirmed id) m =
    form-IsShared w _ _
      (click_entry-Same w _ (λ t e. selected-Same confirmed w.arrays w.form id none w.form t e)) m
Step-IsShared {w = w} (input i) m =
    form-IsShared w (on_change i w.form) _ (on_change-Same i w.form) m
Step-IsShared delete m = record {
  none_at_zero = m.none_at_zero;
  some_arrays = m.some_arrays;
  same = λ h. inl refl;
}
Step-IsShared agents_changed m = record {
  none_at_zero = m.none_at_zero;
  some_arrays = m.some_arrays;
  same = λ h. inr refl;
}
Step-IsShared {w = w} (applied n v h) m =
    let (i, _, _, k) = apply_edit_to_entry_done w v n h in Wrote-IsShared w v i k m
Step-IsShared {b = b} {w = w} (apply_threw v h) m = elim (apply_edit_to_entry_threw w v h) [
  | inl same ↦ subst (IsShared b) (sym same) m
  | inr (i, k) ↦ Wrote-IsShared w v i k m
]

Reach-IsShared : {b : Bool} {w : World} → Reach b w → IsShared b w
unfolding start initial
Reach-IsShared (begin held) = record {
  none_at_zero = refl;
  some_arrays = omega arith;
  same = λ h. inl refl;
}
Reach-IsShared (next r step) = Step-IsShared step (Reach-IsShared r)

-- In every state that the form and the store can reach, whatever files are chosen, read, refused and
-- edited, if the form has entries, the store holds the very entries that the form shows, with every edit
-- applied, unless what the store last took
-- are the entries of a file that the form refused.
pub stored-uploaded : (w : World) → Reach true w → uploaded w ≢ [] → stored w ≡ uploaded w
stored-uploaded w r ne =
    let m = Reach-IsShared r in
    elim (m.same refl) [
      | inl e ↦ absurd (ne (ap (λ a. array_at a w.arrays) e ∙ m.none_at_zero))
      | inr e ↦ ap (λ a. array_at a w.arrays) e
    ]
