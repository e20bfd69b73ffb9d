-- ===== src/Pool/Deletion.antt =====
-- `reconcileAfterPoolDeletion`: the pool that is left, or none. Log lines and events are left out, as in
-- the module of `Reconcile`.
pub mod Emptied
pub mod Selected
pub mod Ready
use astradns_operator.Base.{
  true, false, ℕ, String, Option, none, some, List, [], ◌∷◌, ltb, length, Result, ok, err,
  if◌then◌else◌,
}
use astradns_operator.Api.{Pool, Profile}
use astradns_operator.Pool.Select.{PoolSort, pool_less}
use astradns_operator.Pool.Circuit.{UpsertError, circuit_open, write_failed, Clock, upsert}
use astradns_operator.Pool.Metric.{GaugeVec, record_selection, clear_selection}
use astradns_operator.Pool.ConfigMap.{
  RemoveError, upsert_config_map, remove_config_key, operator_namespace,
}
use astradns_operator.Kube.{Fetched, fetched, absent, broken}
use astradns_operator.Pool.Reconcile.{
  default_cache_profile, Client, Pipeline, Environment, PipelineError, too_large, Outcome,
  list_failed, profile_failed, upsert_failed, pipeline_failed, remove_failed, run_pipeline,
  Operator, report, done,
}

module _ (v : GaugeVec) {E W : Type 0} (client : Client E W) (sorter : PoolSort)
    (pipeline : Pipeline) (env : Environment) where
  -- what follows the write of the ConfigMap
  unfoldable pub report_upsert_left :
      Pool → Result (UpsertError E) (Unit {0}) → Operator v client → Outcome E × Operator v client
  unfolding report
  report_upsert_left pool (ok _) s = report v client pool true "Ready" (done v client) s
  report_upsert_left pool (err (circuit_open until)) s =
      report v client pool false "ConfigMapCircuitOpen" (done v client) s
  report_upsert_left pool (err (write_failed e)) s =
      (record { requeue_after = 0; error = some (upsert_failed e) }, s)

  -- what follows the pipeline
  unfoldable pub reconcile_made_left :
      Clock
      → Pool
      → Result PipelineError String
      → String
      → Operator v client
      → Outcome E × Operator v client
  unfolding report_upsert_left report
  reconcile_made_left t pool (ok config_json) namespace s =
      let write =
        upsert_config_map client.config_maps env.config_map_variable namespace config_json in
      let (r, w, c) = upsert write namespace t s.world s.circuit in
      report_upsert_left pool r (record s { world = w; circuit = c })
  reconcile_made_left t pool (err too_large) namespace s =
      report v client pool false "ConfigTooLarge" (done v client) s
  reconcile_made_left t pool (err e) namespace s =
      (record { requeue_after = 0; error = some (pipeline_failed e) }, s)

  -- what follows `getDefaultCacheProfile`
  unfoldable pub reconcile_fetched_left :
      Clock
      → Pool
      → Result E (Option Profile)
      → String
      → Operator v client
      → Outcome E × Operator v client
  unfolding reconcile_made_left
  reconcile_fetched_left t pool (ok profile) namespace s =
      reconcile_made_left t pool (run_pipeline pipeline pool profile) namespace s
  reconcile_fetched_left t pool (err e) namespace s =
      (record { requeue_after = 0; error = some (profile_failed e) }, s)

  -- what follows the sort of the pools
  unfoldable pub reconcile_left :
      Clock → String → List Pool → Operator v client → Outcome E × Operator v client
  unfolding reconcile_fetched_left default_cache_profile
  reconcile_left t pool_namespace [] s = (done v client, s)
  reconcile_left t pool_namespace (pool ∷ pools) s =
      let reason = if ltb 1 (length (pool ∷ pools)) then "oldest_pool" else "single_pool" in
      reconcile_fetched_left t pool (default_cache_profile client s.world pool_namespace)
        (operator_namespace env.pod_namespace pool_namespace)
        (record s { metric = record_selection v pool_namespace pool.name reason s.metric })

  -- the removal of the agent's key, and its return
  unfoldable pub finish_removal :
      Result (RemoveError E) (Unit {0}) × W → Operator v client → Outcome E × Operator v client
  finish_removal (ok _, w) s = (done v client, record s { world = w })
  finish_removal (err e, w) s =
      (record { requeue_after = 0; error = some (remove_failed e) }, record s { world = w })

  -- what follows the list of the pools
  unfoldable pub reconcile_remaining :
      Clock → String → Result E (List Pool) → Operator v client → Outcome E × Operator v client
  unfolding finish_removal reconcile_left
  reconcile_remaining t pool_namespace (err e) s =
      (record { requeue_after = 0; error = some (list_failed e) }, s)
  reconcile_remaining t pool_namespace (ok []) s =
      finish_removal
        (remove_config_key client.config_maps env.config_map_variable
          (operator_namespace env.pod_namespace pool_namespace) s.world)
        (record s { metric = clear_selection v pool_namespace s.metric })
  reconcile_remaining t pool_namespace (ok (pool ∷ pools)) s =
      reconcile_left t pool_namespace (sorter.sort pool_less (pool ∷ pools)) s

  -- `reconcileAfterPoolDeletion`
  unfoldable pub reconcile_after_deletion :
      Clock → String → Operator v client → Outcome E × Operator v client
  unfolding reconcile_remaining
  reconcile_after_deletion t pool_namespace s =
      reconcile_remaining t pool_namespace (client.list_pools s.world pool_namespace) s
