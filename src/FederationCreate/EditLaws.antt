-- ===== src/FederationCreate/EditLaws.antt =====
-- What one round of the editor changes.
use tornjak.Prelude.{
  ℕ, zero, suc, ◌≡◌, ◌≢◌, refl, ap, ◌∙◌, ◌⊎◌, Bool, true, false, none, some, List, [], ◌∷◌, arith,
  get_elem?,
}
use tornjak.Js.{Text, trim}
use tornjak.FederationCreate.State.{Federation, Uploaded, several, State, handle_file_upload}
use tornjak.FederationCreate.Edit.{
  with_url, write_at, written, set_selected_federation, on_change_url, apply_edit_to_federation,
  select_in,
}

write_at-get_elem? :
    (i : ℕ) (url : Text) (feds : List Federation) (j : ℕ)
    → j ≢ i
    → get_elem? (write_at i url feds) j ≡ get_elem? feds j
write_at-get_elem? i url [] j h = refl
write_at-get_elem? zero url (fed ∷ feds) zero h = absurd (h refl)
write_at-get_elem? zero url (fed ∷ feds) (suc j) h = refl
write_at-get_elem? (suc i) url (fed ∷ feds) zero h = refl
write_at-get_elem? (suc i) url (fed ∷ feds) (suc j) h =
    write_at-get_elem? i url feds j (λ e. h (ap suc e))

write_at_same :
    (i : ℕ) (url : Text) (feds : List Federation) (fed : Federation)
    → get_elem? feds i ≡ some fed
    → get_elem? (write_at i url feds) i ≡ some (with_url url fed)
write_at_same i url [] fed h = cc
write_at_same zero url (f ∷ feds) fed h =
    let same : f ≡ fed = cc in ap (λ o. some (with_url url o)) same
write_at_same (suc i) url (f ∷ feds) fed h = write_at_same i url feds fed h

-- One round of the editor: choose the federation `i`, write `value` into the field, apply.
abbrev pub round : Bool → ℕ → Text → State → State × Bool
round confirmed i value s =
    apply_edit_to_federation (on_change_url value (set_selected_federation confirmed i s))

selected_if :
    (confirmed : Bool) (i : ℕ) (s : State)
    → ((s.federation_selected ≡ false) ⊎ (confirmed ≡ true))
    → set_selected_federation confirmed i s ≡ select_in s.uploaded_federation i s
unfolding set_selected_federation
selected_if confirmed i s h = ground arith

round_several :
    (i : ℕ) (value : Text) (feds : List Federation) (s : State)
    → s.uploaded_federation ≡ several feds
    → apply_edit_to_federation (on_change_url value (select_in (several feds) i s)) ≡ (
      record s {
        uploaded_federation = several (write_at i (trim value) feds);
        selected = none;
        federation_selected = false;
        exposed_bundle_endpoint = [];
      },
      true,
    )
unfolding apply_edit_to_federation on_change_url
round_several i value feds s h = rw h refl

-- One round of the editor on the federation `i` of several, on a form without a selection or with the
-- confirmation: the first relationship of that federation, and of no other, gets the text without white
-- space around it as its address; the selection ends, and the edit is reported as done.
pub round_done :
    (confirmed : Bool) (i : ℕ) (value : Text) (feds : List Federation) (fed : Federation)
    (s : State)
    → s.uploaded_federation ≡ several feds
    → get_elem? feds i ≡ some fed
    → (s.federation_selected ≡ false) ⊎ (confirmed ≡ true)
    → (edited : List Federation) × ((round confirmed i value s).0.uploaded_federation
        ≡ several edited)
      × (get_elem? edited i ≡ some (with_url (trim value) fed))
      × ((j : ℕ) → j ≢ i → get_elem? edited j ≡ get_elem? feds j)
      × ((round confirmed i value s).0.selected ≡ none)
      × ((round confirmed i value s).1 ≡ true)
round_done confirmed i value feds fed s u there_ asked =
    let done =
      ap (λ t. apply_edit_to_federation (on_change_url value t)) (selected_if confirmed i s asked)
      ∙ (ap (λ v. apply_edit_to_federation (on_change_url value (select_in v i s))) u
          ∙ round_several i value feds s u) in
    (
      write_at i (trim value) feds,
      ap (λ p. p.0.uploaded_federation) done,
      write_at_same i (trim value) feds fed there_,
      write_at-get_elem? i (trim value) feds,
      ap (λ p. p.0.selected) done,
      ap (λ p. p.1) done,
    )

-- A file that is uploaded while a federation of the one before is selected does not end the selection:
-- applying then writes the text for the old file's federation into the new file's federation at the
-- same place, and reports it as done.
pub applied_after_upload :
    (i : ℕ) (u : Uploaded) (s : State)
    → s.selected ≡ some i
    → ((apply_edit_to_federation (handle_file_upload (some u) s)).0.uploaded_federation
        ≡ written i (trim s.exposed_bundle_endpoint) u)
      × ((apply_edit_to_federation (handle_file_upload (some u) s)).1 ≡ true)
unfolding apply_edit_to_federation handle_file_upload
applied_after_upload i u s h = rw h (refl, refl)
