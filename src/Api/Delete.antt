-- ===== src/Api/Delete.antt =====
-- The requests that delete. Each returns a value to its caller besides its effects.
use tornjak.Prelude.{ℕ, Bool, true, false, not, some, List, [], ◌∷◌, ◌++◌, filter, ◌==◌}
use tornjak.Js.{Text, codes, ◌===◌, includes}
use tornjak.Types.{Cluster, Entry, Server}
use tornjak.Config.{Env, get_api_server_uri, api_endpoint, tornjak_clusters_api, spire_entries_api}
use tornjak.Store.Actions.{Failure, clusters_list, entries_list, servers_list}
use tornjak.Api.Calls.{
  Reply, resolved, rejected, Method, delete, post, Body, cluster_name, entry_ids, server_name,
  Effect, dispatch,
}

-- What the caller gets: the data of the answer, the error, or `undefined`.
pub data Returned : Type 0 where
  body : Text → Returned
  error : Failure → Returned
  undefined : Returned

pub record DeleteCall : Type 0 where
  pub method : Method
  pub uri : Text
  pub sent : Body
  pub handle : Reply Text → List Effect × Returned

unfoldable pub local_cluster_delete : Env → Text → List Cluster → DeleteCall
unfolding ◌===◌
local_cluster_delete env name clusters = record {
  method = delete;
  uri = get_api_server_uri env (api_endpoint env tornjak_clusters_api);
  sent = cluster_name name;
  handle = elim [
    | resolved status status_text answer ↦ (
      dispatch clusters_list (some (filter (λ (el : Cluster). not (el.name === name)) clusters))
          ∷ [],
      body answer,
    )
    | rejected failure ↦ ([], error failure)
  ];
}

unfoldable pub local_entry_delete : Env → List Text → List Entry → DeleteCall
unfolding ◌===◌
local_entry_delete env ids entries = record {
  method = delete;
  uri = get_api_server_uri env (api_endpoint env spire_entries_api);
  sent = entry_ids ids;
  handle = elim [
    | resolved status status_text answer ↦ (
      dispatch entries_list (filter (λ (el : Entry). not (includes ids el.id)) entries) ∷ [],
      body answer,
    )
    | rejected failure ↦ ([], error failure)
  ];
}

-- Values as `===` tells them apart: an object is equal to itself alone.
pub data Value : Type 0 where
  missing : Value
  string : Text → Value
  object : ℕ → Value

unfoldable pub strict_equals : Value → Value → Bool
unfolding ◌===◌
strict_equals missing missing = true
strict_equals (string s) (string t) = s === t
strict_equals (object m) (object n) = m == n
strict_equals _ _ = false

-- `text.data`: a text has no property of that name.
abbrev pub data_of_text : Text → Returned
data_of_text text_ = undefined

-- The manager's requests compare the name of each element with the whole argument, an object: here
-- it is `object input`. They return `response.data` of what the chain gives, which is already the data of
-- the answer, or the message of the error. The data is a text, as the manager answers deletions with one.
unfoldable pub entry_delete : Env → Text → List Text → ℕ → List Entry → DeleteCall
unfolding strict_equals
entry_delete env server ids input entries = record {
  method = post;
  uri = get_api_server_uri env (codes "/manager-api/tornjak/entry/delete/") ++ server;
  sent = entry_ids ids;
  handle = elim [
    | resolved status status_text answer ↦ (
      dispatch entries_list
            (filter (λ (el : Entry). not (strict_equals missing (object input))) entries)
          ∷ [],
      data_of_text answer,
    )
    | rejected failure ↦ ([], data_of_text failure.message)
  ];
}

unfoldable pub cluster_delete : Env → Text → Text → ℕ → List Cluster → DeleteCall
unfolding strict_equals
cluster_delete env server name input clusters = record {
  method = post;
  uri = get_api_server_uri env (codes "/manager-api/tornjak/clusters/delete/") ++ server;
  sent = cluster_name name;
  handle = elim [
    | resolved status status_text answer ↦ (
      dispatch clusters_list (
            some (
              filter (λ (el : Cluster). not (strict_equals (string el.name) (object input)))
                clusters))
          ∷ [],
      data_of_text answer,
    )
    | rejected failure ↦ ([], data_of_text failure.message)
  ];
}

unfoldable pub server_delete : Env → Text → ℕ → List Server → DeleteCall
unfolding strict_equals
server_delete env name input servers = record {
  method = post;
  uri = get_api_server_uri env (codes "/manager-api/server/delete/");
  sent = server_name name;
  handle = elim [
    | resolved status status_text answer ↦ (
      dispatch servers_list
            (filter (λ (el : Server). not (strict_equals (string el.name) (object input))) servers)
          ∷ [],
      data_of_text answer,
    )
    | rejected failure ↦ ([], data_of_text failure.message)
  ];
}
