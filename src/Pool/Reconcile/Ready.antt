-- ===== src/Pool/Reconcile/Ready.antt =====
-- A run that meets no error marks its pool ready.
use astradns_operator.Base.{
  String, true, false, not, ◌&&◌, ◌==◌, Option, none, some, List, ltb, ok, ◌≡◌, refl, ◌∙◌, ap,
}
use astradns_operator.Platform.{Platform}
use astradns_operator.Api.{Pool, Profile}
use astradns_operator.Pool.Validate.{validate_pool}
use astradns_operator.Pool.Select.{PoolSort, select_active}
use astradns_operator.Pool.Circuit.{Clock, upsert}
use astradns_operator.Pool.Metric.{GaugeVec, record_selection}
use astradns_operator.Pool.Stamp.{ensure_initial_rv}
use astradns_operator.Pool.ConfigMap.{upsert_config_map, operator_namespace}
use astradns_operator.Pool.Reconcile.{
  default_cache_profile, Client, Pipeline, Environment, run_pipeline, Operator, report,
  report_upsert, publish, reconcile_with, reconcile_made, reconcile_fetched, reconcile_listed,
  reconcile_checked, reconcile_stamped, reconcile_found,
}

module _ (v : GaugeVec) {E W : Type 0} (client : Client E W) (p : Platform) (sorter : PoolSort)
    (pipeline : Pipeline) (env : Environment) where
  -- What a run for a pool meets, in the order of its steps, where nothing fails.
  pub record IsSmooth (t : Clock) (pool : Pool) (s : Operator v client) : Type 0 where
    pub stamped : Pool
    pub w : W
    pub stamp_patched : ensure_initial_rv client.patch_pool pool s.world ≡ (ok stamped, w)
    pub valid : validate_pool p (some stamped) ≡ ok tt
    pub pools : List Pool
    pub listed : client.list_pools w stamped.namespace ≡ ok pools
    pub selected :
        (ltb 1 (select_active sorter pools).count
          && not (stamped.name == (select_active sorter pools).name))
        ≡ false
    pub profile : Option Profile
    pub looked_up : default_cache_profile client w stamped.namespace ≡ ok profile
    pub config_json : String
    pub made : run_pipeline pipeline stamped profile ≡ ok config_json
    pub written :
        (upsert
          (upsert_config_map client.config_maps env.config_map_variable
            (operator_namespace env.pod_namespace stamped.namespace)
            config_json)
          (operator_namespace env.pod_namespace stamped.namespace)
          t
          w
          s.circuit).0
        ≡ ok tt

  -- A pool that is not superseded goes on to its profile.
  reconcile_listed_selected :
      (t : Clock) (pool : Pool) (pools : List Pool) (s : Operator v client)
      → (ltb 1 (select_active sorter pools).count
          && not (pool.name == (select_active sorter pools).name))
        ≡ false
      → reconcile_listed v client p sorter pipeline env t pool (ok pools) s
        ≡ reconcile_fetched v client p sorter pipeline env t pool
            (default_cache_profile client s.world pool.namespace)
            (record s {
              metric =
                  record_selection v pool.namespace
                    (select_active sorter pools).name
                    (select_active sorter pools).reason
                    s.metric;
            })
  unfolding reconcile_listed
  reconcile_listed_selected t pool pools s selected = rw selected refl

  -- A run that meets no error before its end writes the text through the circuit breaker, records
  -- the selection in the metric, sets the pool's condition to ready and returns no error but that
  -- of setting it.
  pub reconcile_found-ready :
      (t : Clock) (pool : Pool) (s : Operator v client) (smooth : IsSmooth t pool s)
      → let namespace = operator_namespace env.pod_namespace smooth.stamped.namespace in
        let write =
          upsert_config_map client.config_maps env.config_map_variable namespace
            smooth.config_json in
        let active = select_active sorter smooth.pools in
        reconcile_found v client p sorter pipeline env t pool s
        ≡ report v client smooth.stamped true "Ready"
            (record { requeue_after = 0; error = none })
            (record {
              world = (upsert write namespace t smooth.w s.circuit).1;
              circuit = (upsert write namespace t smooth.w s.circuit).2;
              metric =
                  record_selection v smooth.stamped.namespace active.name active.reason s.metric;
            })
  unfolding reconcile_found reconcile_stamped reconcile_checked reconcile_listed reconcile_fetched
      reconcile_with reconcile_made publish report_upsert
  reconcile_found-ready t pool s smooth =
      let stamped = smooth.stamped in
      let s₁ : Operator v client = record s { world = smooth.w } in
      let active = select_active sorter smooth.pools in
      let s₂ : Operator v client = record s₁ {
        metric = record_selection v stamped.namespace active.name active.reason s.metric;
      } in
      let namespace = operator_namespace env.pod_namespace stamped.namespace in
      let write =
        upsert_config_map client.config_maps env.config_map_variable namespace smooth.config_json in
      let (r, w, c) = upsert write namespace t smooth.w s.circuit in
      ap (λ x. reconcile_stamped v client p sorter pipeline env t x.0 (record s { world = x.1 }))
        smooth.stamp_patched
      ∙ ap (λ x. reconcile_checked v client p sorter pipeline env t stamped x s₁) smooth.valid
      ∙ ap (λ x. reconcile_listed v client p sorter pipeline env t stamped x s₁) smooth.listed
      ∙ reconcile_listed_selected t stamped smooth.pools s₁ smooth.selected
      ∙ ap (λ x. reconcile_fetched v client p sorter pipeline env t stamped x s₂) smooth.looked_up
      ∙ ap (λ x. reconcile_made v client p sorter pipeline env t stamped x s₂) smooth.made
      ∙ ap (λ x. report_upsert v client stamped x (record s₂ { world = w; circuit = c }))
          smooth.written
