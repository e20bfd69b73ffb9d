-- ===== src/Tests/Deletions.antt =====
-- A run after the deletion of the only pool.
use astradns_operator.Base.{String, not, ◌&&◌, ◌==◌, none, [], ok, ◌≡◌, refl, if◌then◌else◌}
use astradns_operator.Pool.Metric.{Labels}
use astradns_operator.Pool.Metric.Agreement.{Agrees}
use astradns_operator.Pool.ConfigMap.{remove_config_key, operator_namespace}
use astradns_operator.Pool.ConfigMap.Entries.{entry, is_config}
use astradns_operator.Pool.Reconcile.{Client, Operator}
use astradns_operator.Pool.Deletion.{reconcile_after_deletion}
use astradns_operator.Pool.Deletion.Emptied.{reconcile_after_deletion-empties}
use astradns_operator.Tests.ConfigMaps.{Cluster, client-IsStore, one_map, closed, noon}
use astradns_operator.Tests.Pools.{insertion, series_map, unset, unset-Agrees}
use astradns_operator.Tests.Reconciles.{cluster, pipeline, environment}

abbrev deserted : Client String Cluster
deserted = record cluster { list_pools = λ w namespace. ok [] }

abbrev before : Operator series_map deserted
before = record { world = one_map; circuit = closed; metric = unset }

deletion_succeeds :
    (reconcile_after_deletion series_map deserted insertion pipeline environment noon "dns"
      before).0.error
    ≡ none
unfolding reconcile_after_deletion remove_config_key
deletion_succeeds = refl

reconcile_after_deletion-empties_example :
    let s' =
      (reconcile_after_deletion series_map deserted insertion pipeline environment noon "dns"
        before).1 in
    let namespace = operator_namespace "" "dns" in
    ((n m k : String)
      → entry (s'.world n m) k
        ≡ (if is_config "" namespace n m k then none else entry (one_map n m) k))
    × Agrees series_map s'.metric
    × ((l : Labels)
        → s'.metric.gauge l
          ≡ (if not ("dns" == "") && "dns" == l.namespace then none else unset.gauge l))
reconcile_after_deletion-empties_example =
    reconcile_after_deletion-empties series_map deserted insertion pipeline environment
      client-IsStore noon "dns" before unset-Agrees refl deletion_succeeds
