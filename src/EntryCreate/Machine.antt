-- ===== src/EntryCreate/Machine.antt =====
-- The form as a state machine: every way in which it changes, and what holds of the request that it
-- sends after any sequence of changes.
use mathlib.Core.Option
use tornjak.Prelude.{ℕ, ◌≡◌, refl, Bool, true, false, Option, none, some, List, [], ◌∷◌, map, arith}
use tornjak.Js.{Text, ===_iff}
use tornjak.Types.{Entry}
use tornjak.Spiffe.Ids.{spiffeid_text}
use tornjak.Spiffe.Selectors.{format_selectors}
use tornjak.Spiffe.Parse.{parse_spiffe_id, spiffeid_text-parse_spiffe_id}
use tornjak.EntryCreate.State.{State, initial, Props, NewEntry, manual_option}
use tornjak.EntryCreate.Handlers.{
  on_change_x509_ttl, on_change_jwt_ttl, on_change_expires_at, on_change_down_stream,
  on_change_dns_names, on_change_federates_with, on_change_selectors_recommended,
  on_change_selectors, on_change_admin_flag, on_change_spiffe_id, on_input_spiffe_id,
  on_change_parent_id, on_change_manual_parent_id,
}
use tornjak.EntryCreate.ParentIds.{prepare_parent_id_agents_list}
use tornjak.EntryCreate.SelectorsList.{prepare_selectors_list}
use tornjak.EntryCreate.Kept.{
  SameIds, recommended-SameIds, parents_prepared-SameIds, selectors_prepared-SameIds,
}
use tornjak.EntryCreate.Submit.{on_submit, on_submit_answer, on_yaml_answer, new_entry, comma_list}
use tornjak.EntryCreate.Submit.Formats.{selectors_printed}
use tornjak.EntryCreate.Submit.Laws.{on_submit_iff, parsed_iff}

-- One change: an event on a field, a preparation after the store has changed, the choice of a
-- server, or the answer to a request.
pub data Step (props : Props) (s : State) : State → Type 0 where
  x509_ttl : (n : ℕ) → Step props s (on_change_x509_ttl n s)
  jwt_ttl : (n : ℕ) → Step props s (on_change_jwt_ttl n s)
  expires_at : (n : ℕ) → Step props s (on_change_expires_at n s)
  down_stream : (b : Bool) → Step props s (on_change_down_stream b s)
  admin_flag : (b : Bool) → Step props s (on_change_admin_flag b s)
  dns_names : (e : Option Text) → Step props s (on_change_dns_names e s)
  federates_with : (e : Option Text) → Step props s (on_change_federates_with e s)
  recommended : (e : Option (List Text)) → Step props s (on_change_selectors_recommended e s)
  selectors : (sid : Text) → Step props s (on_change_selectors sid s)
  spiffe_id : (input : Text) → Step props s (on_input_spiffe_id input s)
  parent_id : (sid : Text) → Step props s (on_change_parent_id sid s)
  manual_parent_id : (sid : Text) → Step props s (on_change_manual_parent_id sid s)
  select_server : (name : Text) → Step props s (record s { selected_server = name })
  parents_prepared : (t : State) → prepare_parent_id_agents_list props s ≡ some t → Step props s t
  selectors_prepared : (t : State) → prepare_selectors_list props s ≡ some t → Step props s t
  answered :
      (request answer : Text) (results : List Text)
      → Step props s (on_submit_answer request answer results s).1
  yaml_answered :
      (request answer : Text) (entries : List Entry) (results : List Text)
      → Step props s (on_yaml_answer request answer entries results s).1

-- What the stored trust domain and path are to the text of an ID.
abbrev pub Agrees : Text → Text → Text → Type 0
Agrees sid trust_domain path =
    (parse_spiffe_id sid).0 ≡ true
    → (trust_domain ≡ (parse_spiffe_id sid).1) × (path ≡ (parse_spiffe_id sid).2)

-- The IDs of the state are parsed, wherever they can be.
pub record IsConsistent (s : State) : Type 0 where
  pub spiffe : Agrees s.spiffe_id s.spiffe_id_trust_domain s.spiffe_id_path
  pub parent : Agrees s.parent_id s.parent_id_trust_domain s.parent_id_path
  pub option : s.parent_id_manual_entry_option ≡ manual_option

parse_empty : (parse_spiffe_id []).0 ≡ false
unfolding parse_spiffe_id
parse_empty = refl

parse_manual_option : (parse_spiffe_id manual_option).0 ≡ false
unfolding parse_spiffe_id
parse_manual_option = refl

on_change_spiffe_id-IsConsistent :
    (sid : Text) (s : State) → IsConsistent s → IsConsistent (on_change_spiffe_id sid s)
unfolding on_change_spiffe_id
on_change_spiffe_id-IsConsistent [] s c = ground (arith, parse_empty)
on_change_spiffe_id-IsConsistent (x ∷ sid) s c = ground arith

on_change_parent_id-IsConsistent :
    (sid : Text) (s : State) → IsConsistent s → IsConsistent (on_change_parent_id sid s)
unfolding on_change_parent_id
on_change_parent_id-IsConsistent [] s c = ground (arith, parse_empty)
on_change_parent_id-IsConsistent (x ∷ sid) s c =
    ground (arith, parse_manual_option, ===_iff (x ∷ sid) s.parent_id_manual_entry_option)

on_change_manual_parent_id-IsConsistent :
    (sid : Text) (s : State) → IsConsistent s → IsConsistent (on_change_manual_parent_id sid s)
unfolding on_change_manual_parent_id
on_change_manual_parent_id-IsConsistent [] s c = ground (arith, parse_empty)
on_change_manual_parent_id-IsConsistent (x ∷ sid) s c = ground arith

SameIds-IsConsistent : {s t : State} → SameIds s t → IsConsistent s → IsConsistent t
SameIds-IsConsistent k c = ground arith

-- Every change keeps the parsed IDs in step with the texts.
pub Step-IsConsistent :
    {props : Props} {s t : State} → Step props s t → IsConsistent s → IsConsistent t
unfolding on_change_x509_ttl on_change_jwt_ttl on_change_expires_at on_change_down_stream
    on_change_admin_flag on_change_dns_names on_change_federates_with on_change_selectors
    on_submit_answer on_yaml_answer
Step-IsConsistent (x509_ttl n) c = ground arith
Step-IsConsistent (jwt_ttl n) c = ground arith
Step-IsConsistent (expires_at n) c = ground arith
Step-IsConsistent (down_stream b) c = ground arith
Step-IsConsistent (admin_flag b) c = ground arith
Step-IsConsistent (dns_names none) c = c
Step-IsConsistent (dns_names (some e)) c = ground arith
Step-IsConsistent (federates_with none) c = c
Step-IsConsistent (federates_with (some e)) c = ground arith
Step-IsConsistent {s} (recommended e) c = SameIds-IsConsistent (recommended-SameIds e s) c
Step-IsConsistent (selectors sid) c = ground arith
Step-IsConsistent {s} (spiffe_id input) c =
    unfold on_input_spiffe_id in (on_change_spiffe_id-IsConsistent _ s c)
Step-IsConsistent {s} (parent_id sid) c = on_change_parent_id-IsConsistent sid s c
Step-IsConsistent {s} (manual_parent_id sid) c = on_change_manual_parent_id-IsConsistent sid s c
Step-IsConsistent (select_server name) c = ground arith
Step-IsConsistent {props} {s} {t} (parents_prepared _ h) c =
    SameIds-IsConsistent (parents_prepared-SameIds props s t h) c
Step-IsConsistent {props} {s} {t} (selectors_prepared _ h) c =
    SameIds-IsConsistent (selectors_prepared-SameIds props s t h) c
Step-IsConsistent (answered request answer []) c = c
Step-IsConsistent (answered request answer (r ∷ results)) c = ground arith
Step-IsConsistent (yaml_answered request answer entries results) c = ground arith

-- The states that the form can be in; the properties may change between the changes.
pub data Reach : State → Type 0 where
  start : Reach initial
  next : {props : Props} {s t : State} → Reach s → Step props s t → Reach t

pub Reach-IsConsistent : {s : State} → Reach s → IsConsistent s
unfolding initial
Reach-IsConsistent start = ground (arith, parse_empty)
Reach-IsConsistent (next r st) = Step-IsConsistent st (Reach-IsConsistent r)

agreed_text :
    (sid trust_domain path : Text)
    → Agrees sid trust_domain path
    → (parse_spiffe_id sid).0 ≡ true
    → spiffeid_text (record { trust_domain = some trust_domain; path = some path }) ≡ sid
agreed_text sid td path agrees ok =
    let (same_td, same_path) = agrees ok in
    rw (same_td, same_path)
      (spiffeid_text-parse_spiffe_id sid _ _
        (λ i. (ok i, (parse_spiffe_id sid).1, (parse_spiffe_id sid).2)))

-- What the user sees in the form is what is sent: in every state that the form can reach, the
-- request holds one entry, whose IDs print as the texts in the form and whose selectors print as
-- the texts between its commas.
pub on_submit_faithful :
    (props : Props) (s : State) (uri : Text) (sent : List NewEntry)
    → Reach s
    → (on_submit props s).request ≡ some (uri, sent)
    → (e : NewEntry) × (sent ≡ e ∷ [])
      × (spiffeid_text e.spiffe_id ≡ s.spiffe_id)
      × (spiffeid_text e.parent_id ≡ s.parent_id)
      × (map (Option.map format_selectors) e.selectors ≡ map some (comma_list s.selectors))
unfolding new_entry
on_submit_faithful props s uri sent r h =
    let c = Reach-IsConsistent r in
    let (ready, _, same) = (on_submit_iff props s uri sent).0 h in
    (
      new_entry props s,
      same,
      agreed_text s.spiffe_id _ _ c.spiffe ((parsed_iff s.spiffe_id).1 ready.spiffe),
      agreed_text s.parent_id _ _ c.parent ((parsed_iff s.parent_id).1 ready.parent),
      selectors_printed (comma_list s.selectors) ready.formatted,
    )
