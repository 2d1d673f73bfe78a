-- ===== src/Tables/Laws/EntryLaws.antt =====
-- What the table of entries saves, and what it tells the user of a deletion.
use tornjak.Prelude.{
  ℕ, ◌≡◌, refl, sym, ap, ◌∙◌, true, false, not, Option, none, some, List, [], ◌∷◌, ◌++◌,
  append_assoc, append-nil, map, filter, arith, all, length, ◌==◌, if◌then◌else◌,
}
use tornjak.Js.{Text, codes, join, includes}
use tornjak.Types.{Entry}
use tornjak.Config.{Env, is_manager}
use tornjak.Api.Calls.{Reply, resolved, rejected}
use tornjak.Api.Delete.{DeleteCall, local_entry_delete, entry_delete}
use tornjak.Tables.Entries.{
  EntryRow, delete_entry, Alert, all_deleted, not_deleted, unexpected_format, failed, failed_ids,
  alert_of_results, alert_after, ids_to_delete, pieces_from, download_entries,
}

-- The pieces one after another: the text of the file.
abbrev pub concatenated : List Text → Text
concatenated [] = []
concatenated (p ∷ ps) = p ++ concatenated ps

abbrev pub infos : List EntryRow → List Text
infos rows = map (λ (r : EntryRow). r.info) rows

pieces_lem :
    (r : EntryRow) (rows : List EntryRow)
    → concatenated (pieces_from (r ∷ rows))
      ≡ join (infos (r ∷ rows)) (codes ",\n") ++ codes "\n]\n}"
unfolding pieces_from join
pieces_lem r [] = append-nil (r.info ++ codes "\n]\n}")
pieces_lem r (q ∷ rows) =
    let rest = join (infos (q ∷ rows)) (codes ",\n") in
    ap (λ l. (r.info ++ codes ",\n") ++ l) (pieces_lem q rows)
    ∙ (append_assoc r.info (codes ",\n") (rest ++ codes "\n]\n}")
        ∙ sym (append_assoc r.info (codes ",\n" ++ rest) (codes "\n]\n}")))

-- The file that is saved for selected rows is their texts in their order, separated by commas, between
-- the opening and the closing of an object with one array.
pub download_entries-join :
    (r : EntryRow) (rows : List EntryRow)
    → concatenated (download_entries (r ∷ rows))
      ≡ codes "{\n  \"entries\": [\n" ++ (join (infos (r ∷ rows)) (codes ",\n") ++ codes "\n]\n}")
unfolding download_entries
download_entries-join r rows = ap (λ l. codes "{\n  \"entries\": [\n" ++ l) (pieces_lem r rows)

no_failed :
    (ids success_ids : List Text)
    → length (failed_ids ids success_ids) == 0 ≡ all (includes success_ids) ids
no_failed [] success_ids = refl
no_failed (id ∷ ids) success_ids = ground (arith, no_failed ids success_ids)

-- What a user should be told: `all_deleted` if every entry has a result, else the ones without.
abbrev pub reported : List Text → Option (List Text) → Alert
reported ids none = unexpected_format
reported ids (some success_ids) =
    if all (includes success_ids) ids
    then all_deleted
    else not_deleted (filter (λ id. not (includes success_ids id)) ids)

reported_lem :
    (ids : List Text) (results : Option (List Text))
    → alert_of_results ids results ≡ reported ids results
reported_lem ids none = refl
reported_lem ids (some success_ids) = rw (no_failed ids success_ids) refl

-- The results of an answer, if it comes.
abbrev pub results_in : (Text → Option (List Text)) → Reply Text → Option (List Text)
results_in results_of (resolved status status_text answer) = results_of answer
results_in results_of (rejected failure) = none

told_local :
    (env : Env) (sent : List Text) (entries : List Entry) (results_of : Text → Option (List Text))
    (r : Reply Text)
    → alert_after results_of sent ((local_entry_delete env sent entries).handle r).1
      ≡ reported sent (results_in results_of r)
unfolding alert_after local_entry_delete
told_local env sent entries results_of (resolved status status_text answer) =
    reported_lem sent (results_of answer)
told_local env sent entries results_of (rejected failure) = refl

-- In local mode, the user is told that all entries were deleted exactly if the answer has a result for each
-- of the entries selected, and else the message names exactly the ones without a result; it names the
-- format if the answer has no array of results, or there is an error.
pub alert_after-local :
    (env : Env) (server : Text) (input : ℕ) (q : EntryRow) (rows : List EntryRow)
    (entries : List Entry) (c : DeleteCall) (results_of : Text → Option (List Text))
    (r : Reply Text)
    → is_manager env ≡ false
    → delete_entry env server input (q ∷ rows) entries ≡ some c
    → alert_after results_of (ids_to_delete (q ∷ rows)) (c.handle r).1
      ≡ reported (ids_to_delete (q ∷ rows)) (results_in results_of r)
unfolding delete_entry
alert_after-local env server input q rows entries c results_of r m h =
    let sent : local_entry_delete env (ids_to_delete (q ∷ rows)) entries ≡ c =
      ground (arith, m, h) in
    rw (sym sent) (told_local env (ids_to_delete (q ∷ rows)) entries results_of r)

told :
    (env : Env) (server : Text) (sent : List Text) (input : ℕ) (entries : List Entry)
    (results_of : Text → Option (List Text)) (ids : List Text) (r : Reply Text)
    → alert_after results_of ids ((entry_delete env server sent input entries).handle r).1 ≡ failed
unfolding alert_after entry_delete
told env server sent input entries results_of ids (resolved status status_text answer) = refl
told env server sent input entries results_of ids (rejected failure) = refl

-- In manager mode a deletion of entries is always reported as failed, whatever the server answers,
-- because the request's function gives its caller nothing.
pub alert_after-manager :
    (env : Env) (server : Text) (input : ℕ) (rows : List EntryRow) (entries : List Entry)
    (c : DeleteCall) (results_of : Text → Option (List Text)) (ids : List Text) (r : Reply Text)
    → is_manager env ≡ true
    → delete_entry env server input rows entries ≡ some c
    → alert_after results_of ids (c.handle r).1 ≡ failed
unfolding delete_entry alert_after
alert_after-manager env server input [] entries c results_of ids r m h = cc
alert_after-manager env server input (q ∷ rows) entries c results_of ids r m h =
    let sent : entry_delete env server (ids_to_delete (q ∷ rows)) input entries ≡ c =
      ground (arith, m, h) in
    rw (sym sent) (told env server (ids_to_delete (q ∷ rows)) input entries results_of ids r)
