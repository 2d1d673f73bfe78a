-- ===== src/EntryCreate/Handlers.antt =====
-- The handlers of the form's fields. `setState` is the returned state; a handler that returns early
-- on a missing event takes an `Option`; a number is what `Number(e.target.value)` gave.
use tornjak.Prelude.{
  ℕ, Bool, true, false, Option, none, some, List, [], ◌∷◌, ◌++◌, map, ◌==◌, if◌then◌else◌, length,
  drop,
}
use tornjak.Js.{Text, codes, ◌===◌}
use tornjak.Spiffe.Ids.{prefix}
use tornjak.Spiffe.Parse.{parse_spiffe_id}
use tornjak.EntryCreate.State.{State}

unfoldable pub on_change_x509_ttl : ℕ → State → State
on_change_x509_ttl n s = record s { x509_svid_ttl = n }

unfoldable pub on_change_jwt_ttl : ℕ → State → State
on_change_jwt_ttl n s = record s { jwt_svid_ttl = n }

unfoldable pub on_change_expires_at : ℕ → State → State
on_change_expires_at n s = record s { expires_at = n }

unfoldable pub on_change_down_stream : Bool → State → State
on_change_down_stream selected s = record s { downstream = selected }

unfoldable pub on_change_dns_names : Option Text → State → State
on_change_dns_names none s = s
on_change_dns_names (some sid) s = record s { dns_names = sid }

unfoldable pub on_change_federates_with : Option Text → State → State
on_change_federates_with none s = s
on_change_federates_with (some sid) s = record s { federates_with = sid }

-- The loop over the selected labels: the last one gets no separator behind it.
unfoldable pub recommend : List Text → Text × Text → Text × Text
recommend [] acc = acc
recommend (l ∷ []) (selectors, display) = (selectors ++ (l ++ codes ":"), display ++ l)
recommend (l ∷ m ∷ ls) (selectors, display) =
    recommend (m ∷ ls) (selectors ++ (l ++ codes ":\n"), display ++ (l ++ codes ","))

abbrev display_or_hint : Text → Text
display_or_hint [] = codes "Select Selectors"
display_or_hint (c ∷ s) = c ∷ s

unfoldable pub on_change_selectors_recommended : Option (List Text) → State → State
unfolding recommend
on_change_selectors_recommended none s = s
on_change_selectors_recommended (some sid) s =
    let (selectors, display) = recommend sid ([], []) in
    record s {
      selectors_recommendation_list = selectors;
      selectors_list_display = display_or_hint display;
    }

-- `replace(/\n/g, ",")`, one code unit.
abbrev pub comma_for_newline : ℕ → ℕ
comma_for_newline c = if c == 10 then b',' else c

unfoldable pub on_change_selectors : Text → State → State
on_change_selectors sid s = record s { selectors = map comma_for_newline sid }

unfoldable pub on_change_admin_flag : Bool → State → State
on_change_admin_flag selected s = record s { admin_flag = selected }

abbrev set_spiffe_id : Text → Bool × Text × Text → State → State
set_spiffe_id sid (true, trust_domain, path) s = record s {
  message = [];
  spiffe_id = sid;
  spiffe_id_trust_domain = trust_domain;
  spiffe_id_path = path;
}
set_spiffe_id sid (false, trust_domain, path) s = record s {
  spiffe_id = sid;
  message = codes "Invalid Spiffe ID";
  spiffe_id_trust_domain = [];
  spiffe_id_path = [];
}

unfoldable pub on_change_spiffe_id : Text → State → State
on_change_spiffe_id sid s =
    if length sid == 0
    then record s {
      spiffe_id = sid;
      spiffe_id_trust_domain = [];
      spiffe_id_path = [];
      message = [];
    }
    else set_spiffe_id sid (parse_spiffe_id sid) s

-- The ends of `onChangeParentId` and `onChangeManualParentId`.
abbrev set_parent_id : Text → Bool × Text × Text → State → State
set_parent_id sid (true, trust_domain, path) s = record s {
  message = [];
  parent_id = sid;
  parent_id_trust_domain = trust_domain;
  parent_id_path = path;
  spiffe_id_prefix = prefix ++ (trust_domain ++ codes "/");
}
set_parent_id sid (false, trust_domain, path) s = record s {
  parent_id = sid;
  message = codes "Invalid Parent ID";
  parent_id_trust_domain = [];
  parent_id_path = [];
}

abbrev clear_parent_id : Text → State → State
clear_parent_id sid s = record s {
  parent_id = sid;
  parent_id_trust_domain = [];
  parent_id_path = [];
  message = [];
}

unfoldable pub on_change_parent_id : Text → State → State
on_change_parent_id sid s =
    if length sid == 0
    then clear_parent_id sid s
    else if sid === s.parent_id_manual_entry_option
    then record s { parent_id_manual_entry = true; spiffe_id_prefix = []; parent_id = sid }
    else set_parent_id sid (parse_spiffe_id sid) (record s { parent_id_manual_entry = false })

unfoldable pub on_change_manual_parent_id : Text → State → State
on_change_manual_parent_id sid s =
    if length sid == 0 then clear_parent_id sid s else set_parent_id sid (parse_spiffe_id sid) s

-- The field of the SPIFFE ID puts the prefix in front of what was typed behind it.
unfoldable pub on_input_spiffe_id : Text → State → State
unfolding on_change_spiffe_id
on_input_spiffe_id input s =
    on_change_spiffe_id (s.spiffe_id_prefix ++ drop (length s.spiffe_id_prefix) input) s
