-- ===== src/EntryJson/Edit/Refine.antt =====
-- The edits in place, against edits of a list that nobody shares.
use tornjak.Prelude.{
  ℕ, ◌≡◌, ◌≢◌, refl, sym, ap, ◌∙◌, true, some, List, [], ◌∷◌, arith, get_elem?, set, length,
  length-set,
}
use tornjak.EntryJson.State.{Upload, Entries}
use tornjak.EntryJson.World.{World, array_at, uploaded, stored}
use tornjak.EntryJson.Edit.{done, edited, apply_edit_to_entry}
use tornjak.EntryJson.Edit.Frame.{apply_edit_to_entry_done}
use tornjak.EntryJson.Edit.Shared.{Reach, next, applied, stored-uploaded}

-- The specification: the entries with the one at `i` edited.
abbrev pub edited_at : World → ℕ → Upload → Entries → Entries
edited_at w i u es = set es i (some (edited w.form u))

some-ne-nil {ℓ} : {A : Type ℓ} (xs : List A) (i : ℕ) (x : A) → get_elem? xs i ≡ some x → xs ≢ []
some-ne-nil [] i x h e = cc
some-ne-nil (y ∷ xs) i x h e = cc

set-ne-nil {ℓ} : {A : Type ℓ} (xs : List A) (i : ℕ) (y : A) → xs ≢ [] → set xs i y ≢ []
set-ne-nil xs i y h e =
    elim xs as (λ l. l ≢ [] → set l i y ≡ [] → ⊥) [
      | [] ↦ λ g f. g refl
      | ◌∷◌ x xs' ↦ λ g f.
          let size = ap length f in let same = length-set (x ∷ xs') i y in omega (arith, size, same)
    ]
      h e

-- An edit in place does to the store what the edit of a list does: before it the store holds the entries that
-- the form shows, after it the same entries with the selected one edited, in every state that the form
-- and the store can reach, unless what the store last took are the entries of a
-- file that the form refused.
pub apply_edit_to_entry-edited_at :
    (w v : World) (n : ℕ)
    → Reach true w
    → apply_edit_to_entry w ≡ done n v
    → (i : ℕ) × (u : Upload) × (w.form.selected_entry_id ≡ some i)
      × (get_elem? (uploaded w) i ≡ some (some u))
      × (stored w ≡ uploaded w)
      × (stored v ≡ edited_at w i u (uploaded w))
apply_edit_to_entry-edited_at w v n r h =
    let (i, chosen, _, k) = apply_edit_to_entry_done w v n h in
    let full = some-ne-nil (uploaded w) i (some k.entry) k.before in
    let now_ : uploaded v ≡ edited_at w i k.entry (uploaded w) =
      ap (λ a. array_at a v.arrays) k.address ∙ k.after in
    let full_v : uploaded v ≢ [] =
      λ e. set-ne-nil (uploaded w) i (some (edited w.form k.entry)) full (sym now_ ∙ e) in
    (
      i,
      k.entry,
      chosen,
      k.before,
      stored-uploaded w r full,
      stored-uploaded v (next {w = w} r (applied n v h)) full_v ∙ now_,
    )
