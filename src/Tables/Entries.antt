-- ===== src/Tables/Entries.antt =====
-- frontend/src/tables/entries-list-table.tsx. `show` stands for `JSON.stringify`, `now` is the
-- current time in milliseconds.
use mathlib.Core.Option
use tornjak.Prelude.{
  ℕ, suc, ◌+◌, ◌/◌, Bool, false, not, Option, none, some, List, [], ◌∷◌, ◌++◌, map, filter, length,
  leb, ◌==◌, if◌then◌else◌,
}
use tornjak.Js.{Text, codes, join, includes, to_text}
use tornjak.Types.{Entry}
use tornjak.Spiffe.Ids.{prefix, text_of}
use tornjak.Spiffe.Selectors.{format_selectors}
use tornjak.Config.{Env, is_manager}
use tornjak.Api.Delete.{
  DeleteCall, Returned, body, error, undefined, local_entry_delete, entry_delete,
}

pub record EntryRow : Type 0 where
  pub idx : Text
  pub id : Text
  pub spiffeid : Text
  pub parentid : Text
  pub selectors : Text
  pub info : Text
  pub expired : Text

abbrev at_most : Option ℕ → ℕ → Bool
at_most none n = false
at_most (some m) n = leb m n

-- `none` is an error: missing selectors have no `map`.
unfoldable pub entry_row : (Entry → Text) → ℕ → ℕ → Entry → Option EntryRow
unfolding format_selectors join to_text
entry_row show now i e = elim e.selectors [
  | none ↦ none
  | some selectors ↦ some (record {
    idx = to_text (i + 1);
    id = e.id;
    spiffeid = prefix ++ (text_of e.spiffe_id.trust_domain ++ text_of e.spiffe_id.path);
    parentid = prefix ++ (text_of e.parent_id.trust_domain ++ text_of e.parent_id.path);
    selectors = join (map format_selectors selectors) (codes ", ");
    info = show e;
    expired = if at_most e.expires_at (now / 1000) then codes "Expired" else codes "Active";
  })
]

-- The loop of `prepareTableData`, from row `i` on.
unfoldable pub entry_rows : (Entry → Text) → ℕ → ℕ → List Entry → Option (List EntryRow)
unfolding entry_row
entry_rows show now i [] = some []
entry_rows show now i (e ∷ es) = elim (entry_row show now i e) [
  | none ↦ none
  | some r ↦ Option.map (λ rs. r ∷ rs) (entry_rows show now (suc i) es)
]

-- `cells[1]` is the ID.
abbrev pub ids_to_delete : List EntryRow → List Text
ids_to_delete rows = map (λ (r : EntryRow). r.id) rows

-- `deleteEntry`: no request for no rows, and one otherwise. `input` is the identity of the object
-- that is sent.
unfoldable pub delete_entry : Env → Text → ℕ → List EntryRow → List Entry → Option DeleteCall
unfolding is_manager local_entry_delete entry_delete
delete_entry env server input [] entries = none
delete_entry env server input (r ∷ rows) entries =
    let ids = ids_to_delete (r ∷ rows) in
    some (
      if is_manager env
      then entry_delete env server ids input entries
      else local_entry_delete env ids entries)

-- What the user is told of a deletion.
pub data Alert : Type 0 where
  all_deleted : Alert
  not_deleted : List Text → Alert
  unexpected_format : Alert
  failed : Alert

-- `failedIds`
abbrev pub failed_ids : List Text → List Text → List Text
failed_ids ids success_ids = filter (λ id. not (includes success_ids id)) ids

abbrev pub compared : List Text → List Text → Alert
compared ids success_ids =
    if length (failed_ids ids success_ids) == 0
    then all_deleted
    else not_deleted (failed_ids ids success_ids)

-- The IDs of the results, if the answer has an array of them.
abbrev pub alert_of_results : List Text → Option (List Text) → Alert
alert_of_results ids none = unexpected_format
alert_of_results ids (some success_ids) = compared ids success_ids

-- What follows the request: `results_of` stands for the IDs in `response.results` of an answer. An
-- error object has no `results`, and `undefined` has no fields at all, which throws.
unfoldable pub alert_after : (Text → Option (List Text)) → List Text → Returned → Alert
alert_after results_of ids (body answer) = alert_of_results ids (results_of answer)
alert_after results_of ids (error failure) = unexpected_format
alert_after results_of ids undefined = failed

-- The pieces of the file that `downloadEntries` saves: `cells[5]` is the text of the entry.
abbrev pub closing : List EntryRow → Text
closing [] = codes "\n]\n}"
closing (r ∷ rows) = codes ",\n"

unfoldable pub pieces_from : List EntryRow → List Text
pieces_from [] = []
pieces_from (r ∷ rows) = (r.info ++ closing rows) ∷ pieces_from rows

unfoldable pub download_entries : List EntryRow → List Text
unfolding pieces_from
download_entries [] = []
download_entries (r ∷ rows) = codes "{\n  \"entries\": [\n" ∷ pieces_from (r ∷ rows)
