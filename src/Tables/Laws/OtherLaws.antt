-- ===== src/Tables/Laws/OtherLaws.antt =====
-- What is left of the clusters after the deletion of several.
use tornjak.Prelude.{ℕ, suc, ◌≡◌, refl, false, not, some, List, [], ◌∷◌, ◌++◌, filter}
use tornjak.Js.{Text, ◌===◌}
use tornjak.Types.{Cluster}
use tornjak.Config.{Env, is_manager}
use tornjak.Store.Actions.{clusters_list}
use tornjak.Store.Reducers.{RootState}
use tornjak.Store.Registers.{read}
use tornjak.Api.Calls.{resolved, run}
use tornjak.Api.Delete.{DeleteCall, local_cluster_delete}
use tornjak.Tables.Others.{ClusterRow, delete_cluster}

-- The answers to all requests, in the order of the requests: each succeeds.
abbrev pub all_answered : List DeleteCall → Text → RootState → RootState
all_answered [] answer s = s
all_answered (c ∷ calls) answer s =
    all_answered calls answer (run (c.handle (resolved 200 [] answer)).0 s)

-- In local mode, when every request of a deletion of clusters has succeeded, one after another, the store
-- holds the given clusters without those that have the name of the last row: the clusters of the other
-- rows are still in it.
pub delete_cluster_last :
    (env : Env) (server : Text) (input : ℕ) (rows : List ClusterRow) (r : ClusterRow)
    (clusters : List Cluster) (answer : Text) (s : RootState)
    → is_manager env ≡ false
    → read clusters_list
        (all_answered (delete_cluster env server input (rows ++ (r ∷ [])) clusters) answer s)
      ≡ some (filter (λ (el : Cluster). not (el.name === r.cluster_name)) clusters)
unfolding delete_cluster run local_cluster_delete
delete_cluster_last env server input [] r clusters answer s m = rw m refl
delete_cluster_last env server input (q ∷ rows) r clusters answer s m =
    rw m (delete_cluster_last env server (suc input) rows r clusters answer _ m)
