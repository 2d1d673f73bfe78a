-- ===== src/FederationCreate/Laws.antt =====
-- The labels that the editor lists, what an edit changes, and what is sent.
use tornjak.Prelude.{
  ℕ, zero, suc, ◌≡◌, ◌≢◌, refl, sym, ap, ◌∙◌, Bool, Option, none, some, List, [], ◌∷◌, map, arith,
}
use tornjak.Js.{Text, codes, trim}
use tornjak.Config.{Env, get_api_server_uri}
use tornjak.FederationCreate.State.{
  Relationship, Federation, Uploaded, several, single, State, initial, trust_domain_of,
  first_domain, federations, handle_file_upload, on_reader_error, on_delete, sent_of, submitted,
  on_submit, on_response, on_response_error,
}
use tornjak.FederationCreate.Edit.{
  with_url, with_url_first, write_at, written, set_selected_federation, on_change_url,
  apply_edit_to_federation, applied_to, select_in,
}

-- One event of the form.
pub data Step (env : Env) (s : State) : State → Type 0 where
  upload : (parsed : Option Uploaded) → Step env s (handle_file_upload parsed s)
  unreadable : Step env s (on_reader_error s)
  remove : Step env s (on_delete s)
  submit : Step env s (on_submit env s).0
  response : (m : Option Text) (data_ : Text) → Step env s (on_response m data_ s)
  response_error : (m : Option Text) (data_ : Text) → Step env s (on_response_error m data_ s)
  select : (confirmed : Bool) (index : ℕ) → Step env s (set_selected_federation confirmed index s)
  change_url : (value : Text) → Step env s (on_change_url value s)
  apply : Step env s (apply_edit_to_federation s).0

pub data Reach (env : Env) : State → Type 0 where
  start : Reach env initial
  next : {s t : State} → Reach env s → Step env s t → Reach env t

-- The labels are those of the federations.
abbrev pub Labelled : State → Type 0
Labelled s = s.new_federations_ids ≡ map trust_domain_of (federations s.uploaded_federation)

first_domain-with_url_first :
    (url : Text) (o : Option (List Relationship))
    → first_domain (with_url_first url o) ≡ first_domain o
first_domain-with_url_first url none = refl
first_domain-with_url_first url (some []) = refl
first_domain-with_url_first url (some (r ∷ rs)) = refl

label-with_url :
    (url : Text) (fed : Federation) → trust_domain_of (with_url url fed) ≡ trust_domain_of fed
label-with_url url fed = first_domain-with_url_first url fed.federation_relationships

labels-write_at :
    (i : ℕ) (url : Text) (feds : List Federation)
    → map trust_domain_of (write_at i url feds) ≡ map trust_domain_of feds
labels-write_at i url [] = refl
labels-write_at zero url (fed ∷ feds) =
    ap (λ l. l ∷ map trust_domain_of feds) (label-with_url url fed)
labels-write_at (suc i) url (fed ∷ feds) =
    ap (λ l. trust_domain_of fed ∷ l) (labels-write_at i url feds)

labels-written :
    (i : ℕ) (url : Text) (u : Uploaded)
    → map trust_domain_of (federations (written i url u)) ≡ map trust_domain_of (federations u)
labels-written i url (several feds) = labels-write_at i url feds
labels-written zero url (single fed) = ap (λ l. l ∷ []) (label-with_url url fed)
labels-written (suc i) url (single fed) = refl

applied-Labelled : (o : Option ℕ) (s : State) → Labelled s → Labelled (applied_to o s).0
applied-Labelled none s h = h
applied-Labelled (some i) s h =
    h ∙ sym (labels-written i (trim s.exposed_bundle_endpoint) s.uploaded_federation)

submitted-Labelled :
    (env : Env) (s : State) (o : Option Uploaded) → Labelled s → Labelled (submitted env s o).0
submitted-Labelled env s none h = h
submitted-Labelled env s (some u) h = h

-- Choosing a federation changes neither the federations nor the labels.
abbrev Kept : State → State → Type 0
Kept s t =
    (t.new_federations_ids ≡ s.new_federations_ids)
    × (t.uploaded_federation ≡ s.uploaded_federation)

select_in-Kept : (u : Uploaded) (i : ℕ) (s : State) → Kept s (select_in u i s)
select_in-Kept (several feds) i s = (refl, refl)
select_in-Kept (single fed) zero s = (refl, refl)
select_in-Kept (single fed) (suc i) s = (refl, refl)

select-Kept :
    (confirmed : Bool) (i : ℕ) (s : State) → Kept s (set_selected_federation confirmed i s)
unfolding set_selected_federation
select-Kept confirmed i s = ground (arith, select_in-Kept s.uploaded_federation i s)

Step-Labelled : {env : Env} {s t : State} → Step env s t → Labelled s → Labelled t
unfolding handle_file_upload on_reader_error on_delete on_submit on_response on_response_error
    on_change_url apply_edit_to_federation
Step-Labelled (upload none) h = h
Step-Labelled (upload (some u)) h = refl
Step-Labelled unreadable h = h
Step-Labelled remove h = refl
Step-Labelled {env = env} {s = s} submit h =
    submitted-Labelled env s (sent_of s.uploaded_federation) h
Step-Labelled (response m data_) h = h
Step-Labelled (response_error m data_) h = h
Step-Labelled {s = s} (select confirmed i) h = let (p, q) = select-Kept confirmed i s in cc
Step-Labelled (change_url value) h = h
Step-Labelled {s = s} apply h = applied-Labelled s.selected s h

-- In every state that the form can reach, through uploads, failed ones too, edits, removals, requests and
-- answers, the list of the editor has exactly one label for each federation that would be sent, in
-- their order, and it is that federation's trust domain.
pub Reach-Labelled : {env : Env} {s : State} → Reach env s → Labelled s
Reach-Labelled start = refl
Reach-Labelled (next r step) = Step-Labelled step (Reach-Labelled r)

sent_federations :
    (u : Uploaded)
    → federations u ≢ []
    → (body : Uploaded) × (sent_of u ≡ some body) × (federations body ≡ federations u)
sent_federations (several []) h = absurd (h refl)
sent_federations (several (fed ∷ [])) h = (single fed, refl, refl)
sent_federations (several (fed ∷ fed' ∷ feds)) h = (several (fed ∷ fed' ∷ feds), refl, refl)
sent_federations (single fed) h = (single fed, refl, refl)

-- Pressing the button sends the federations that are loaded, all of them and in their order, if there is
-- one at least, and changes none of them.
pub federations_sent :
    (env : Env) (s : State)
    → federations s.uploaded_federation ≢ []
    → (body : Uploaded) × ((on_submit env s).1
        ≡ some (get_api_server_uri env (codes "/api/v1/spire/federations"), body))
      × (federations body ≡ federations s.uploaded_federation)
      × ((on_submit env s).0.uploaded_federation ≡ s.uploaded_federation)
unfolding on_submit
federations_sent env s h =
    let (body, e, same) = sent_federations s.uploaded_federation h in
    (
      body,
      ap (λ o. (submitted env s o).1) e,
      same,
      ap (λ o. (submitted env s o).0.uploaded_federation) e,
    )
