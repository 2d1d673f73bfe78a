-- ===== src/Api/DeleteLaws.antt =====
-- What the requests that delete leave in the store.
use mathlib.Core.List.{Memᴰ}
use tornjak.Prelude.{
  ℕ, ◌≡◌, ◌≢◌, ◌↔◌, refl, ap, Bool, true, false, not, some, List, [], ◌∷◌, arith, filter,
  Memᴰ-filter, Memᴰ_of_filter,
}
use tornjak.Js.{Text, ◌===◌, ===_iff, includes}
use tornjak.Types.{Cluster, Entry, Server}
use tornjak.Config.{Env}
use tornjak.Store.Actions.{Failure, clusters_list, entries_list, servers_list}
use tornjak.Store.Reducers.{RootState}
use tornjak.Store.Registers.{read}
use tornjak.Api.Calls.{Reply, resolved, rejected, run}
use tornjak.Api.Delete.{
  Returned, error, undefined, DeleteCall, local_cluster_delete, local_entry_delete, entry_delete,
  cluster_delete, server_delete,
}

-- The store after the answer, and what the caller gets.
abbrev pub deleted : DeleteCall → Reply Text → RootState → RootState
deleted c r s = run (c.handle r).0 s

abbrev pub answer : DeleteCall → Reply Text → Returned
answer c r = (c.handle r).1

-- After a successful deletion of a cluster in local mode the store holds exactly the given clusters that
-- have another name.
pub local_cluster_delete_lem :
    (env : Env) (name : Text) (clusters : List Cluster) (s : RootState) (status : ℕ)
    (status_text data_ : Text)
    → (left : List Cluster) × (read clusters_list
          (deleted (local_cluster_delete env name clusters) (resolved status status_text data_) s)
        ≡ some left)
      × ((c : Cluster) → Memᴰ c left ↔ (Memᴰ c clusters × (c.name ≢ name)))
unfolding run local_cluster_delete
local_cluster_delete_lem env name clusters s status status_text data_ = (
  filter (λ (el : Cluster). not (el.name === name)) clusters,
  refl,
  λ c. (
    λ m.
        let (k, other) = Memᴰ_of_filter (λ (el : Cluster). not (el.name === name)) clusters m in
        (k, λ e. ground (arith, ===_iff c.name name)),
    λ (m, other). Memᴰ-filter _ clusters m (ground (arith, ===_iff c.name name)),
  ),
)

-- After a successful deletion of entries in local mode the store holds exactly the given entries whose IDs
-- are not among those to delete.
pub local_entry_delete_lem :
    (env : Env) (ids : List Text) (entries : List Entry) (s : RootState) (status : ℕ)
    (status_text data_ : Text) (e : Entry)
    → Memᴰ e (
        read entries_list
          (deleted (local_entry_delete env ids entries) (resolved status status_text data_) s))
      ↔ (Memᴰ e entries × (includes ids e.id ≡ false))
unfolding run local_entry_delete
local_entry_delete_lem env ids entries s status status_text data_ e = (
  λ m.
      let (k, other) = Memᴰ_of_filter (λ (el : Entry). not (includes ids el.id)) entries m in
      (k, ground arith),
  λ (m, other). Memᴰ-filter _ entries m (ground arith),
)

-- A failed deletion in local mode changes nothing, and the caller gets the error.
pub local_delete_failed :
    (env : Env) (name : Text) (ids : List Text) (clusters : List Cluster) (entries : List Entry)
    (s : RootState) (failure : Failure)
    → (deleted (local_cluster_delete env name clusters) (rejected failure) s ≡ s)
      × (answer (local_cluster_delete env name clusters) (rejected failure) ≡ error failure)
      × (deleted (local_entry_delete env ids entries) (rejected failure) s ≡ s)
      × (answer (local_entry_delete env ids entries) (rejected failure) ≡ error failure)
unfolding run local_cluster_delete local_entry_delete
local_delete_failed env name ids clusters entries s failure = (refl, refl, refl, refl)

filter_all_true {ℓ} :
    {A : Type ℓ} (p : A → Bool) (xs : List A) → ((x : A) → p x ≡ true) → filter p xs ≡ xs
filter_all_true p [] h = refl
filter_all_true p (x ∷ xs) h = ground (arith, h x, filter_all_true p xs h)

-- In manager mode a successful deletion leaves the whole given list in the store, and the caller
-- gets `undefined` whatever the answer was.
pub manager_delete_keeps :
    (env : Env) (server name : Text) (ids : List Text) (input : ℕ) (clusters : List Cluster)
    (entries : List Entry) (servers : List Server) (s : RootState) (status : ℕ)
    (status_text data_ : Text)
    → let r : Reply Text = resolved status status_text data_ in
      (read clusters_list (deleted (cluster_delete env server name input clusters) r s)
        ≡ some clusters)
      × (read entries_list (deleted (entry_delete env server ids input entries) r s) ≡ entries)
      × (read servers_list (deleted (server_delete env name input servers) r s) ≡ servers)
      × (answer (cluster_delete env server name input clusters) r ≡ undefined)
      × (answer (entry_delete env server ids input entries) r ≡ undefined)
      × (answer (server_delete env name input servers) r ≡ undefined)
unfolding run cluster_delete entry_delete server_delete
manager_delete_keeps env server name ids input clusters entries servers s status status_text data_ =
    (
      ap some (filter_all_true _ clusters (λ x. refl)),
      filter_all_true _ entries (λ x. refl),
      filter_all_true _ servers (λ x. refl),
      refl,
      refl,
      refl,
    )
