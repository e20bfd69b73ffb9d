-- ===== src/Pool/Deletion/Ready.antt =====
-- The run after the deletion of a pool, where a pool is left.
use astradns_operator.Base.{
  String, true, Option, none, List, ◌∷◌, ltb, length, ok, ◌≡◌, ◌∙◌, ap, if◌then◌else◌,
}
use astradns_operator.Api.{Pool, Profile}
use astradns_operator.Pool.Select.{PoolSort, pool_less}
use astradns_operator.Pool.Circuit.{Clock, upsert}
use astradns_operator.Pool.Metric.{GaugeVec, Metric, record_selection}
use astradns_operator.Pool.ConfigMap.{upsert_config_map, operator_namespace}
use astradns_operator.Pool.Reconcile.{
  default_cache_profile, Client, Pipeline, Environment, Operator, report, run_pipeline,
}
use astradns_operator.Pool.Deletion.{
  report_upsert_left, reconcile_made_left, reconcile_fetched_left, reconcile_left,
  reconcile_remaining, reconcile_after_deletion,
}

module _ (v : GaugeVec) {E W : Type 0} (client : Client E W) (sorter : PoolSort)
    (pipeline : Pipeline) (env : Environment) where
  -- The run after a deletion, where the pipeline makes a text of the pool that the sort puts first among
  -- those that remain and its write succeeds, ends with the patch that marks the pool ready.
  pub reconcile_after_deletion-ready :
      (t : Clock) (x pool : Pool) (xs rest : List Pool) (profile : Option Profile)
      (config_json : String) (s : Operator v client)
      → client.list_pools s.world pool.namespace ≡ ok (x ∷ xs)
      → sorter.sort pool_less (x ∷ xs) ≡ pool ∷ rest
      → default_cache_profile client s.world pool.namespace ≡ ok profile
      → run_pipeline pipeline pool profile ≡ ok config_json
      → let namespace = operator_namespace env.pod_namespace pool.namespace in
        let write =
          upsert_config_map client.config_maps env.config_map_variable namespace config_json in
        (upsert write namespace t s.world s.circuit).0 ≡ ok tt
        → (m : Metric v) × (reconcile_after_deletion v client sorter pipeline env t pool.namespace s
            ≡ report v client pool true "Ready"
                (record { requeue_after = 0; error = none })
                (record {
                  world = (upsert write namespace t s.world s.circuit).1;
                  circuit = (upsert write namespace t s.world s.circuit).2;
                  metric = m;
                }))
  unfolding reconcile_after_deletion reconcile_remaining reconcile_left reconcile_fetched_left
      reconcile_made_left report_upsert_left
  reconcile_after_deletion-ready t x pool xs rest profile config_json s listed sorted looked_up made
        wrote =
      let namespace = operator_namespace env.pod_namespace pool.namespace in
      let m =
        record_selection v pool.namespace pool.name
          (if ltb 1 (length (pool ∷ rest)) then "oldest_pool" else "single_pool") s.metric in
      let s' : Operator v client = record s { metric = m } in
      let write =
        upsert_config_map client.config_maps env.config_map_variable namespace config_json in
      let (r, w, c) = upsert write namespace t s.world s.circuit in
      (
        m,
        ap (λ l. reconcile_remaining v client sorter pipeline env t pool.namespace l s) listed
            ∙ ap (λ l. reconcile_left v client sorter pipeline env t pool.namespace l s) sorted
            ∙ ap (λ g. reconcile_fetched_left v client sorter pipeline env t pool g namespace s')
                looked_up
            ∙ ap (λ m. reconcile_made_left v client sorter pipeline env t pool m namespace s') made
            ∙ ap
                (λ o.
                  report_upsert_left v client sorter pipeline env pool o
                    (record s' { world = w; circuit = c }))
                wrote,
      )
