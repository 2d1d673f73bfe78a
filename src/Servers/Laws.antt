-- ===== src/Servers/Laws.antt =====
-- The files of the form and what is sent of them.
use tornjak.Prelude.{
  ◌≡◌, ◌≢◌, ◌↔◌, ◌⊎◌, refl, sym, ◌∙◌, Bool, Option, none, some, [], ◌∷◌, inl, inr,
}
use tornjak.Js.{Text, codes}
use tornjak.Config.{Env}
use tornjak.Servers.Register.{
  State, initial, Box, tls, mtls, on_change_server_name, on_change_server_address,
  handle_input_change, on_ca_file_change, on_cert_file_change, on_key_file_change, on_submit,
  on_submit_answer, on_submit_error,
}

pub data Step (base64 : Text → Text) (s : State) : State → Type 0 where
  name : (e : Option Text) → Step base64 s (on_change_server_name e s)
  address : (e : Option Text) → Step base64 s (on_change_server_address e s)
  box : (b : Box) (checked : Bool) → Step base64 s (handle_input_change b checked s)
  ca : (result : Text) → Step base64 s (on_ca_file_change base64 result s)
  cert : (result : Text) → Step base64 s (on_cert_file_change base64 result s)
  key : (result : Text) → Step base64 s (on_key_file_change base64 result s)
  answer : (request answer : Text) → Step base64 s (on_submit_answer request answer s)
  error : (err data_ : Text) → Step base64 s (on_submit_error err data_ s)

pub data Reach (base64 : Text → Text) : State → Type 0 where
  start : Reach base64 initial
  next : {s t : State} → Reach base64 s → Step base64 s t → Reach base64 t

-- The data is there and the text says so, or neither.
abbrev Shows : Option Text → Text → Text → Type 0
Shows d text success = ((d ≡ none) × (text ≡ [])) ⊎ (((x : Text) × (d ≡ some x)) × (text ≡ success))

record IsShown (s : State) : Type 0 where
  ca_shown : Shows s.form_ca_data s.ca_file_text (codes "CA file load success")
  cert_shown : Shows s.form_cert_data s.cert_file_text (codes "cert file load success")
  key_shown : Shows s.form_key_data s.key_file_text (codes "key file load success")

-- The same files.
kept :
    {s : State} (t : State)
    → t.form_ca_data ≡ s.form_ca_data
    → t.ca_file_text ≡ s.ca_file_text
    → t.form_cert_data ≡ s.form_cert_data
    → t.cert_file_text ≡ s.cert_file_text
    → t.form_key_data ≡ s.form_key_data
    → t.key_file_text ≡ s.key_file_text
    → IsShown s
    → IsShown t
kept t a b c d e f h = record {
  ca_shown = rw (a, b) h.ca_shown;
  cert_shown = rw (c, d) h.cert_shown;
  key_shown = rw (e, f) h.key_shown;
}

Step-IsShown : {base64 : Text → Text} {s t : State} → Step base64 s t → IsShown s → IsShown t
unfolding on_change_server_name on_change_server_address handle_input_change on_ca_file_change
    on_cert_file_change on_key_file_change on_submit_answer on_submit_error
Step-IsShown (name none) h = h
Step-IsShown {t = t} (name (some sid)) h = kept t refl refl refl refl refl refl h
Step-IsShown (address none) h = h
Step-IsShown {t = t} (address (some sid)) h = kept t refl refl refl refl refl refl h
Step-IsShown {t = t} (box tls checked) h = kept t refl refl refl refl refl refl h
Step-IsShown {t = t} (box mtls checked) h = kept t refl refl refl refl refl refl h
Step-IsShown (ca []) h = h
Step-IsShown {base64 = base64} (ca (c ∷ result)) h = record {
  ca_shown = inr ((base64 (c ∷ result), refl), refl);
  cert_shown = h.cert_shown;
  key_shown = h.key_shown;
}
Step-IsShown (cert []) h = h
Step-IsShown {base64 = base64} (cert (c ∷ result)) h = record {
  ca_shown = h.ca_shown;
  cert_shown = inr ((base64 (c ∷ result), refl), refl);
  key_shown = h.key_shown;
}
Step-IsShown (key []) h = h
Step-IsShown {base64 = base64} (key (c ∷ result)) h = record {
  ca_shown = h.ca_shown;
  cert_shown = h.cert_shown;
  key_shown = inr ((base64 (c ∷ result), refl), refl);
}
Step-IsShown {t = t} (answer request a) h = kept t refl refl refl refl refl refl h
Step-IsShown {t = t} (error err data_) h = kept t refl refl refl refl refl refl h

Reach-IsShown : {base64 : Text → Text} {s : State} → Reach base64 s → IsShown s
Reach-IsShown start = record {
  ca_shown = inl (refl, refl);
  cert_shown = inl (refl, refl);
  key_shown = inl (refl, refl);
}
Reach-IsShown (next r step) = Step-IsShown step (Reach-IsShown r)

Shows-iff :
    (d : Option Text) (text : Text) (success : Text)
    → success ≢ []
    → Shows d text success
    → (d ≢ none) ↔ (text ≡ success)
Shows-iff d text success n (inl (e, f)) = (λ h. absurd (h e), λ h. absurd (n (sym h ∙ f)))
Shows-iff d text success n (inr ((x, e), f)) = (λ h. f, λ h k. cc)

-- In every state that the form can reach, a registration carries each of the three files exactly if the form
-- says that it is loaded; this holds whatever the boxes for TLS and mTLS say.
pub on_submit_files :
    (env : Env) (base64 : Text → Text) (s : State)
    → Reach base64 s
    → (((on_submit env s).1.ca ≢ none) ↔ (s.ca_file_text ≡ codes "CA file load success"))
      × (((on_submit env s).1.cert ≢ none) ↔ (s.cert_file_text ≡ codes "cert file load success"))
      × (((on_submit env s).1.key ≢ none) ↔ (s.key_file_text ≡ codes "key file load success"))
unfolding on_submit
on_submit_files env base64 s r =
    let h = Reach-IsShown r in
    (
      Shows-iff s.form_ca_data s.ca_file_text _ (λ e. cc) h.ca_shown,
      Shows-iff s.form_cert_data s.cert_file_text _ (λ e. cc) h.cert_shown,
      Shows-iff s.form_key_data s.key_file_text _ (λ e. cc) h.key_shown,
    )
