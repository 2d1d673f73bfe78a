-- ===== src/EntryCreate/Submit/Laws.antt =====
-- When `onSubmit` sends a request, and what it sends.
use tornjak.Prelude.{
  ◌≡◌, ◌≢◌, ◌↔◌, refl, true, false, some, List, [], ◌∷◌, ◌++◌, map, any, arith, All, ap,
}
use tornjak.Js.{Text}
use tornjak.Spiffe.Ids.{prefix}
use tornjak.Spiffe.Parse.{parse_spiffe_id, parse_spiffe_id_iff, IsPlain}
use tornjak.EntryCreate.State.{State, Props, NewEntry}
use tornjak.EntryCreate.Submit.{
  on_submit, comma_list, parse_selector, is_malformed, new_entry, get_api_entry_create_endpoint,
  post_to,
}
use tornjak.EntryCreate.Submit.Formats.{HasSelector, All-formatted, none_malformed}

-- A text that the form accepts as a SPIFFE ID.
abbrev pub IsSpiffeId : Text → Type 0
IsSpiffeId sid = (td : Text) × (p : Text) × (sid ≡ prefix ++ (td ++ p)) × IsPlain td p

pub parsed_iff : (sid : Text) → ((parse_spiffe_id sid).0 ≡ true) ↔ IsSpiffeId sid
parsed_iff sid = (
  λ h.
      let r = parse_spiffe_id sid in
      let (same, plain) = (parse_spiffe_id_iff sid r.1 r.2).0 (λ i. (h i, r.1, r.2)) in
      (r.1, r.2, same, plain),
  λ (td, p, same, plain). ap (λ r. r.0) ((parse_spiffe_id_iff sid td p).1 (same, plain)),
)

IsSpiffeId-ne-nil : (sid : Text) → IsSpiffeId sid → sid ≢ []
IsSpiffeId-ne-nil sid (td, p, same, plain) = ground arith

-- What `onSubmit` wants of the form before it sends a request.
pub record IsReady (props : Props) (s : State) : Type 0 where
  pub parent : IsSpiffeId s.parent_id
  pub spiffe : IsSpiffeId s.spiffe_id
  pub selectors : comma_list s.selectors ≢ []
  pub formatted : All HasSelector (comma_list s.selectors)
  pub address : (get_api_entry_create_endpoint props s).1 ≢ []

post_to-some :
    {A : Type 0} (e : List Text × Text) (sent : List A)
    → e.1 ≢ []
    → (post_to e sent).request ≡ some (e.1, sent)
post_to-some (toasts, []) sent h = absurd (h refl)
post_to-some (toasts, c ∷ uri) sent h = refl

post_to_sent :
    {A : Type 0} (e : List Text × Text) (given sent : List A) (uri : Text)
    → (post_to e given).request ≡ some (uri, sent)
    → (e.1 ≢ []) × (sent ≡ given) × (uri ≡ e.1)
post_to_sent (toasts, []) given sent uri h = cc
post_to_sent (toasts, c ∷ u) given sent uri h = (λ e. cc, cc, cc)

on_submit_ready :
    (props : Props) (s : State)
    → IsReady props s
    → (on_submit props s).request
      ≡ some ((get_api_entry_create_endpoint props s).1, new_entry props s ∷ [])
unfolding on_submit
on_submit_ready props s r =
    let parent_ok = (parsed_iff s.parent_id).1 r.parent in
    let spiffe_ok = (parsed_iff s.spiffe_id).1 r.spiffe in
    ground (
      arith,
      IsSpiffeId-ne-nil s.parent_id r.parent,
      IsSpiffeId-ne-nil s.spiffe_id r.spiffe,
      parent_ok,
      spiffe_ok,
      r.selectors,
      none_malformed (comma_list s.selectors) r.formatted,
      post_to-some (get_api_entry_create_endpoint props s) (new_entry props s ∷ []) r.address,
    )

-- The tests that a sent request has passed.
passed :
    (props : Props) (s : State) (uri : Text) (sent : List NewEntry)
    → (on_submit props s).request ≡ some (uri, sent)
    → ((parse_spiffe_id s.parent_id).0 ≡ true)
      × ((parse_spiffe_id s.spiffe_id).0 ≡ true)
      × (comma_list s.selectors ≢ [])
      × (any is_malformed (map parse_selector (comma_list s.selectors)) ≡ false)
      × ((post_to (get_api_entry_create_endpoint props s) (new_entry props s ∷ [])).request
          ≡ some (uri, sent))
unfolding on_submit
passed props s uri sent h = ground arith

on_submit_sent :
    (props : Props) (s : State) (uri : Text) (sent : List NewEntry)
    → (on_submit props s).request ≡ some (uri, sent)
    → IsReady props s
      × (uri ≡ (get_api_entry_create_endpoint props s).1)
      × (sent ≡ new_entry props s ∷ [])
on_submit_sent props s uri sent h =
    let (parent_ok, spiffe_ok, some_selectors, formats, posted) = passed props s uri sent h in
    let (address, same, to) =
      post_to_sent (get_api_entry_create_endpoint props s) (new_entry props s ∷ []) sent uri
        posted in
    (
      record {
        parent = (parsed_iff s.parent_id).0 parent_ok;
        spiffe = (parsed_iff s.spiffe_id).0 spiffe_ok;
        selectors = some_selectors;
        formatted = All-formatted (comma_list s.selectors) formats;
        address = address;
      },
      to,
      same,
    )

-- A request is sent exactly if both IDs are SPIFFE IDs, there are selectors, each written
-- `type:value`, and there is an address; it goes to that address with the one entry of the form.
pub on_submit_iff :
    (props : Props) (s : State) (uri : Text) (sent : List NewEntry)
    → ((on_submit props s).request ≡ some (uri, sent)) ↔ (
        IsReady props s
        × (uri ≡ (get_api_entry_create_endpoint props s).1)
        × (sent ≡ new_entry props s ∷ []))
on_submit_iff props s uri sent = (
  on_submit_sent props s uri sent,
  λ (ready, to, same). rw (to, same) (on_submit_ready props s ready),
)
