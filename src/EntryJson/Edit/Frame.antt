-- ===== src/EntryJson/Edit/Frame.antt =====
-- What an applied edit writes, and what it leaves alone.
use tornjak.Prelude.{
  ℕ, zero, suc, ◌+◌, ◌≡◌, ◌≢◌, refl, ◌∙◌, ap, sym, Option, none, some, List, [], ◌∷◌, arith, length,
  subst, ltb, Bool-cases, Option-cases, inl, inr, ◌⊎◌, get_elem?, set, length-set, get_elem?-set_ne,
}
use tornjak.EntryJson.State.{Upload, Entries, State}
use tornjak.EntryJson.World.{World, or_nil, array_at, uploaded}
use tornjak.EntryJson.Edit.{
  after_edit, threw, done, edited, write_entry, apply_selected, apply_edit_to_entry,
}

-- A place that holds an entry can be written to.
pub array_at-set_self :
    (arrays : List Entries) (a i : ℕ) (e : Option Upload) (es : Entries)
    → get_elem? (array_at a arrays) i ≡ some e
    → array_at a (set arrays a es) ≡ es
array_at-set_self [] a i e es h = cc
array_at-set_self (xs ∷ arrays) zero i e es h = refl
array_at-set_self (xs ∷ arrays) (suc a) i e es h = array_at-set_self arrays a i e es h

pub array_at-set_ne :
    (arrays : List Entries) (a b : ℕ) (es : Entries)
    → a ≢ b
    → array_at b (set arrays a es) ≡ array_at b arrays
array_at-set_ne arrays a b es h = ap or_nil (get_elem?-set_ne arrays es h)

-- What is known of a world after the write into entry `i`.
pub record Wrote (w : World) (i : ℕ) (v : World) : Type 0 where
  pub entry : Upload
  pub before : get_elem? (uploaded w) i ≡ some (some entry)
  pub after :
      array_at w.form.uploaded_entries v.arrays ≡ set (uploaded w) i (some (edited w.form entry))
  pub others : (a : ℕ) → a ≢ w.form.uploaded_entries → array_at a v.arrays ≡ array_at a w.arrays
  pub count : length v.arrays ≡ length w.arrays
  pub store : v.global_new_entries ≡ w.global_new_entries
  pub address : v.form.uploaded_entries ≡ w.form.uploaded_entries
  pub errors : v.form.parse_error ≡ w.form.parse_error

-- The world with the entry written, and any form that has the same array and the same error.
abbrev with_form : World → ℕ → Upload → State → World
with_form w i u form = record w {
  arrays = set w.arrays w.form.uploaded_entries (set (uploaded w) i (some (edited w.form u)));
  form = form;
}

with_form-Wrote :
    (w : World) (i : ℕ) (u : Upload) (form : State)
    → get_elem? (uploaded w) i ≡ some (some u)
    → form.uploaded_entries ≡ w.form.uploaded_entries
    → form.parse_error ≡ w.form.parse_error
    → Wrote w i (with_form w i u form)
with_form-Wrote w i u form h ha he = record {
  entry = u;
  before = h;
  after = array_at-set_self w.arrays w.form.uploaded_entries i (some u) _ h;
  others = λ a ne. array_at-set_ne w.arrays w.form.uploaded_entries a _ (λ e. ne (sym e));
  count = length-set w.arrays w.form.uploaded_entries _;
  store = refl;
  address = ha;
  errors = he;
}

write_entry-Wrote :
    (i : ℕ) (m : Option (Option Upload)) (w : World)
    → get_elem? (uploaded w) i ≡ m
    → ((n : ℕ) (v : World) → write_entry i m w ≡ done n v → (n ≡ i + 1) × Wrote w i v)
      × ((v : World) → write_entry i m w ≡ threw v → (v ≡ w) ⊎ Wrote w i v)
write_entry-Wrote i none w h = (λ n v e. cc, λ v e. inl (cc))
write_entry-Wrote i (some none) w h = (λ n v e. cc, λ v e. inl (cc))
write_entry-Wrote i (some (some u)) w h =
    elim (Bool-cases (ltb i (length w.form.new_entries_ids))) [
      | inl b ↦ rw b (
        λ n v e.
            let same : with_form w i u (after_edit i w.form) ≡ v = cc in
            (cc, subst (Wrote w i) same (with_form-Wrote w i u (after_edit i w.form) h refl refl)),
        λ v e. cc,
      )
      | inr b ↦ rw b (
        λ n v e. cc,
        λ v e.
            let same : with_form w i u w.form ≡ v = cc in
            inr (subst (Wrote w i) same (with_form-Wrote w i u w.form h refl refl)),
      )
    ]

passed_done :
    (i : ℕ) (w v : World) (n : ℕ)
    → apply_selected (some i) w ≡ done n v
    → write_entry i (get_elem? (uploaded w) i) w ≡ done n v
passed_done i w v n h = ground arith

passed_threw :
    (i : ℕ) (w v : World)
    → apply_selected (some i) w ≡ threw v
    → write_entry i (get_elem? (uploaded w) i) w ≡ threw v
passed_threw i w v h = ground arith

-- An edit that is applied writes the texts of the form into the selected entry and into no other
-- entry of any array, and the store keeps its array.
pub apply_edit_to_entry_done :
    (w v : World) (n : ℕ)
    → apply_edit_to_entry w ≡ done n v
    → (i : ℕ) × (w.form.selected_entry_id ≡ some i) × (n ≡ i + 1) × Wrote w i v
unfolding apply_edit_to_entry
apply_edit_to_entry_done w v n h = elim (Option-cases w.form.selected_entry_id) [
  | inl e ↦
      let k : apply_selected none w ≡ done n v = ap (λ o. apply_selected o w) (sym e) ∙ h in cc
  | inr (i, e) ↦
      let k = passed_done i w v n (ap (λ o. apply_selected o w) (sym e) ∙ h) in
      let (ni, wrote) = (write_entry-Wrote i (get_elem? (uploaded w) i) w refl).0 n v k in
      (i, e, ni, wrote)
]

pub apply_edit_to_entry_threw :
    (w v : World) → apply_edit_to_entry w ≡ threw v → (v ≡ w) ⊎ ((i : ℕ) × Wrote w i v)
unfolding apply_edit_to_entry
apply_edit_to_entry_threw w v h = elim (Option-cases w.form.selected_entry_id) [
  | inl e ↦ let k : apply_selected none w ≡ threw v = ap (λ o. apply_selected o w) (sym e) ∙ h in cc
  | inr (i, e) ↦
      let k = passed_threw i w v (ap (λ o. apply_selected o w) (sym e) ∙ h) in
      elim ((write_entry-Wrote i (get_elem? (uploaded w) i) w refl).1 v k) [
        | inl same ↦ inl same
        | inr wrote ↦ inr (i, wrote)
      ]
]
