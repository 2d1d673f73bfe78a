-- ===== src/EntryCreate/Submit.antt =====
-- `onSubmit`, `onYAMLEntryCreate` and what their requests' answers do. `JSON.stringify` enters as the
-- text that it gives; an answer as the status messages of its results.
pub mod Formats
pub mod Laws
pub mod Answers
pub mod Typed
use tornjak.Prelude.{
  ℕ, suc, ◌-◌, Bool, true, false, not, ◌&&◌, ◌||◌, Option, none, some, List, [], ◌∷◌, ◌++◌, map,
  any, ◌==◌, ltb, if◌then◌else◌, length, take, drop, count, ℤ, sub_ℕ,
}
use tornjak.Js.{Text, codes, ◌===◌, split, trim, index_of}
use tornjak.Types.{Selector, SpiffeId, Entry}
use tornjak.Config.{Env, get_api_server_uri, is_manager, api_endpoint, spire_entries_api}
use tornjak.Spiffe.Parse.{parse_spiffe_id}
use tornjak.EntryCreate.State.{State, Props, NewEntry}

-- What a method does besides changing the state: the captions that it shows, and at most one
-- request, as its address and the entries that it sends.
pub record Outcome (A : Type 0) : Type 0 where
  pub toasts : List Text
  pub request : Option (Text × List A)

-- `getApiEntryCreateEndpoint`: the captions shown, and the address or "".
unfoldable pub get_api_entry_create_endpoint : Props → State → List Text × Text
get_api_entry_create_endpoint props s =
    if not (is_manager props.env)
    then ([], get_api_server_uri props.env (api_endpoint props.env spire_entries_api))
    else if not (length s.selected_server == 0)
    then (
      [],
      get_api_server_uri props.env (codes "/manager-api/entry/create")
          ++ (codes "/" ++ s.selected_server),
    )
    else (codes "No server selected." ∷ [], [])

-- `text.length !== 0 ? text.split(',').map(x => x.trim()) : []`
unfoldable pub comma_list : Text → List Text
unfolding split trim
comma_list [] = []
comma_list (c ∷ s) = map trim (split (c ∷ s) b',')

abbrev selector_at : Text → Option ℕ → Option Selector
selector_at x none = none
selector_at x (some i) =
    if ltb 0 i then some (record { type = take i x; value = drop (suc i) x }) else none

-- The text before the first colon and the text behind it, or `null`.
unfoldable pub parse_selector : Text → Option Selector
unfolding index_of
parse_selector x = selector_at x (index_of x b':')

-- `x == null || x["value"].length === 0`
abbrev pub is_malformed : Option Selector → Bool
is_malformed none = true
is_malformed (some s) = length s.value == 0

-- `cjtData`
unfoldable pub new_entry : Props → State → NewEntry
unfolding comma_list parse_selector
new_entry props s = record {
  spiffe_id = record { trust_domain = some s.spiffe_id_trust_domain; path = some s.spiffe_id_path };
  parent_id = record { trust_domain = some s.parent_id_trust_domain; path = some s.parent_id_path };
  selectors = map parse_selector (comma_list s.selectors);
  admin = s.admin_flag;
  x509_svid_ttl = s.x509_svid_ttl;
  jwt_svid_ttl = s.jwt_svid_ttl;
  expires_at = props.global_entry_expiry_time;
  downstream = s.downstream;
  federates_with = comma_list s.federates_with;
  dns_names = comma_list s.dns_names;
}

abbrev pub refused : {A : Type 0} → Text → Outcome A
refused caption = record { toasts = caption ∷ []; request = none }

-- A request, unless there is no address for it.
abbrev pub post_to : {A : Type 0} → List Text × Text → List A → Outcome A
post_to (toasts, []) sent = record { toasts = toasts; request = none }
post_to (toasts, c ∷ uri) sent = record { toasts = toasts; request = some (c ∷ uri, sent) }

unfoldable pub on_submit : Props → State → Outcome NewEntry
on_submit props s =
    if length s.parent_id == 0
    then refused (codes "The parent SPIFFE id cannot be empty.")
    else if length s.spiffe_id == 0
    then refused (codes "The SPIFFE id cannot be empty.")
    else if not (parse_spiffe_id s.parent_id).0
    then refused (codes "The parent SPIFFE id is invalid.")
    else if not (parse_spiffe_id s.spiffe_id).0
    then refused (codes "The SPIFFE id is invalid.")
    else if length (comma_list s.selectors) == 0
    then refused (codes "The selectors cannot be empty.")
    else if any is_malformed (map parse_selector (comma_list s.selectors))
    then refused (codes "The selectors must be formatted 'type:value'.")
    else post_to (get_api_entry_create_endpoint props s) (new_entry props s ∷ [])

-- The answer to the request of `onSubmit`. An answer with no result throws in the handler, whose
-- error the `catch` shows as a failed connection.
unfoldable pub on_submit_answer : Text → Text → List Text → State → List Text × State
on_submit_answer request answer [] s = (codes "Could not create entry." ∷ [], s)
on_submit_answer request answer (status ∷ rest) s = (
  [],
  record s {
    message = codes "Request:" ++ (request ++ (codes "\n\nSuccess:" ++ answer));
    status_ok = codes "OK";
    success_json_messege = status;
  },
)

unfoldable pub on_yaml_entry_create : Props → State → Outcome Entry
unfolding get_api_entry_create_endpoint
on_yaml_entry_create props s = elim props.global_new_entries [
  | none ↦ record { toasts = []; request = none }
  | some entries ↦ post_to (get_api_entry_create_endpoint props s) entries
]

-- The loop that counts the results that are "OK".
unfoldable pub count_ok : List Text → ℕ → ℕ
unfolding ◌===◌
count_ok [] n = n
count_ok (status ∷ results) n = count_ok results (if status === codes "OK" then suc n else n)

-- `{ "success": …, "fail": … }`
pub record NumEntries : Type 0 where
  pub success : ℕ
  pub fail : ℤ

unfoldable pub success_num_entries : List Entry → List Text → NumEntries
unfolding count_ok sub_ℕ
success_num_entries entries results =
    let n = count_ok results 0 in record { success = n; fail = sub_ℕ (length entries) n }

unfoldable pub on_yaml_answer : Text → Text → List Entry → List Text → State → NumEntries × State
unfolding success_num_entries
on_yaml_answer request answer entries results s = (
  success_num_entries entries results,
  record s {
    message = codes "REQUEST:" ++ (request ++ (codes "\n\nRESPONSE:" ++ answer));
    status_ok = codes "Multiple";
  },
)
