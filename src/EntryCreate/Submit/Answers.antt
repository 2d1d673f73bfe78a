-- ===== src/EntryCreate/Submit/Answers.antt =====
-- What the user is told: the messages of the button and the numbers of an upload.
use tornjak.Config.{Env, get_api_server_uri, api_base_url, api_endpoint, spire_entries_api}
use tornjak.Prelude.{
  ℕ, suc, ◌≡◌, ◌≢◌, ◌⊎◌, refl, Bool, true, not, any, ◌==◌, none, List, [], ◌∷◌, arith, length,
  pos_part, neg_part, sub_ℕ_parts, count, ◌+◌,
}
use tornjak.Js.{Text, codes, ◌===◌}
use tornjak.Types.{Entry}
use tornjak.EntryCreate.State.{State, Props}
use tornjak.EntryCreate.Submit.{
  on_submit, new_entry, get_api_entry_create_endpoint, post_to, count_ok, success_num_entries,
}

post_to_toasts :
    {A : Type 0} (e : List Text × Text) (sent : List A)
    → (e.0 ≡ []) × (e.1 ≢ []) ⊎ (length e.0 ≡ 1) × (e.1 ≡ [])
    → ((post_to e sent).toasts ≡ []) × ((post_to e sent).request ≢ none)
      ⊎ (length (post_to e sent).toasts ≡ 1) × ((post_to e sent).request ≡ none)
post_to_toasts (toasts, []) sent h = ground arith
post_to_toasts (toasts, c ∷ uri) sent h = ground arith

-- Whether a text has more in it than slashes.
abbrev pub has_word : Text → Bool
has_word t = any (λ c. not (c == b'/')) t

-- What the form relies on of the package url-join: it takes slashes away and adds some, and keeps the
-- rest of the parts, so that the address is not empty if the second part has more in it than slashes.
unfoldable pub KeepsWords : (Text → Text → Text) → Type 0
KeepsWords urljoin = (a b : Text) → has_word b ≡ true → urljoin a b ≢ []

entries_uri-ne-nil :
    (env : Env)
    → KeepsWords env.urljoin
    → get_api_server_uri env (api_endpoint env spire_entries_api) ≢ []
unfolding get_api_server_uri api_endpoint api_base_url KeepsWords
entries_uri-ne-nil env h = h _ _ refl

manager_uri-ne-nil :
    (env : Env)
    → KeepsWords env.urljoin
    → get_api_server_uri env (codes "/manager-api/entry/create") ≢ []
unfolding get_api_server_uri KeepsWords
manager_uri-ne-nil env h = h _ _ refl

endpoint_toasts :
    (props : Props) (s : State)
    → KeepsWords props.env.urljoin
    → let e = get_api_entry_create_endpoint props s in
      (e.0 ≡ []) × (e.1 ≢ []) ⊎ (length e.0 ≡ 1) × (e.1 ≡ [])
unfolding get_api_entry_create_endpoint
endpoint_toasts props s h =
    ground (arith, entries_uri-ne-nil props.env h, manager_uri-ne-nil props.env h)

-- Pressing the button sends a request and shows nothing, or shows exactly one message and sends
-- nothing, if url-join keeps what is not a slash.
pub on_submit_toasts :
    (props : Props) (s : State)
    → KeepsWords props.env.urljoin
    → ((on_submit props s).toasts ≡ []) × ((on_submit props s).request ≢ none)
      ⊎ (length (on_submit props s).toasts ≡ 1) × ((on_submit props s).request ≡ none)
unfolding on_submit
on_submit_toasts props s h = ground (
  arith,
  post_to_toasts (get_api_entry_create_endpoint props s) (new_entry props s ∷ [])
      (endpoint_toasts props s h),
)

count_ok-count :
    (results : List Text) (n : ℕ) → count_ok results n ≡ n + count (λ r. r === codes "OK") results
unfolding count_ok
count_ok-count [] n = omega arith
count_ok-count (r ∷ results) n =
    ground (arith, count_ok-count results (suc n), count_ok-count results n)

-- The successes are the results that are "OK", and successes and failures together are the
-- entries that were sent.
pub success_num_entries_lem :
    (entries : List Entry) (results : List Text)
    → let r = success_num_entries entries results in
      (r.success ≡ count (λ t. t === codes "OK") results)
      × (pos_part r.fail + r.success ≡ neg_part r.fail + length entries)
unfolding success_num_entries
success_num_entries_lem entries results =
    omega (arith, count_ok-count results 0, sub_ℕ_parts (length entries) (count_ok results 0))
