-- ===== src/Pool/Deletion/Selected.antt =====
-- After a deletion the pool that is selected is published as a run for it would.
use astradns_operator.Base.{
  Option, String, List, ◌∷◌, ltb, length, Result, ok, err, ◌≡◌, refl, sym, ◌∙◌, ap, subst, eq_refl,
  arith, if◌then◌else◌,
}
use astradns_operator.Platform.{Platform}
use astradns_operator.Api.{Pool, Profile}
use astradns_operator.Pool.Select.{PoolSort, select_active, pool_less}
use astradns_operator.Pool.Circuit.{Clock, UpsertError, circuit_open, write_failed, upsert}
use astradns_operator.Pool.Metric.{GaugeVec, record_selection}
use astradns_operator.Pool.ConfigMap.{upsert_config_map, operator_namespace}
use astradns_operator.Pool.Reconcile.{
  default_cache_profile, Client, Pipeline, Environment, PipelineError, too_large, generation_failed,
  validation_failed, marshal_failed, Operator, report, report_upsert, publish, reconcile_with,
  reconcile_made, reconcile_fetched, reconcile_listed, run_pipeline,
}
use astradns_operator.Pool.Reconcile.Untouched.{Same, KeepsConfigMaps}
use astradns_operator.Pool.Deletion.{
  report_upsert_left, reconcile_made_left, reconcile_fetched_left, reconcile_left,
  reconcile_remaining,
}

module _ (v : GaugeVec) {E W : Type 0} (client : Client E W) (keeps : KeepsConfigMaps client)
    (p : Platform) (sorter : PoolSort) (pipeline : Pipeline) (env : Environment) where
  -- The two states have one gauge and circuit breaker, and store the same ConfigMaps.
  abbrev pub IsAlike : Operator v client → Operator v client → Type 0
  IsAlike a b = (a.metric ≡ b.metric) × (a.circuit ≡ b.circuit) × Same client a.world b.world

  report_upsert_left-IsAlike :
      (pool : Pool) (r : Result (UpsertError E) (Unit {0})) (s : Operator v client)
      → IsAlike
          (report_upsert_left v client sorter pipeline env pool r s).1
          (report_upsert v client pool r s).1
  unfolding report_upsert_left report_upsert report
  report_upsert_left-IsAlike pool (ok _) s = (refl, refl, λ n m. refl)
  report_upsert_left-IsAlike pool (err (circuit_open until)) s = (refl, refl, λ n m. refl)
  report_upsert_left-IsAlike pool (err (write_failed e)) s =
      (refl, refl, λ n m. sym (keeps pool _ s.world n m))

  reconcile_made_left-IsAlike :
      (t : Clock) (pool : Pool) (r : Result PipelineError String) (s : Operator v client)
      → IsAlike
          (reconcile_made_left v client sorter pipeline env t pool r
            (operator_namespace env.pod_namespace pool.namespace)
            s).1
          (reconcile_made v client p sorter pipeline env t pool r s).1
  unfolding reconcile_made_left reconcile_made publish report
  reconcile_made_left-IsAlike t pool (ok config_json) s =
      let namespace = operator_namespace env.pod_namespace pool.namespace in
      let write =
        upsert_config_map client.config_maps env.config_map_variable namespace config_json in
      let (r, w, c) = upsert write namespace t s.world s.circuit in
      report_upsert_left-IsAlike pool r (record s { world = w; circuit = c })
  reconcile_made_left-IsAlike t pool (err too_large) s =
      (refl, refl, λ n m. keeps pool _ s.world n m ∙ sym (keeps pool _ s.world n m))
  reconcile_made_left-IsAlike t pool (err generation_failed) s =
      (refl, refl, λ n m. sym (keeps pool _ s.world n m))
  reconcile_made_left-IsAlike t pool (err validation_failed) s =
      (refl, refl, λ n m. sym (keeps pool _ s.world n m))
  reconcile_made_left-IsAlike t pool (err marshal_failed) s =
      (refl, refl, λ n m. sym (keeps pool _ s.world n m))

  reconcile_fetched_left-IsAlike :
      (t : Clock) (pool : Pool) (g : Result E (Option Profile)) (s : Operator v client)
      → IsAlike
          (reconcile_fetched_left v client sorter pipeline env t pool g
            (operator_namespace env.pod_namespace pool.namespace)
            s).1
          (reconcile_fetched v client p sorter pipeline env t pool g s).1
  unfolding reconcile_fetched_left reconcile_fetched reconcile_with report
  reconcile_fetched_left-IsAlike t pool (ok profile) s =
      reconcile_made_left-IsAlike t pool (run_pipeline pipeline pool profile) s
  reconcile_fetched_left-IsAlike t pool (err e) s =
      (refl, refl, λ n m. sym (keeps pool _ s.world n m))

  listed_selected :
      (t : Clock) (x : Pool) (xs : List Pool) (pool : Pool) (rest : List Pool)
      (s : Operator v client)
      → sorter.sort pool_less (x ∷ xs) ≡ pool ∷ rest
      → reconcile_listed v client p sorter pipeline env t pool (ok (x ∷ xs)) s
        ≡ reconcile_fetched v client p sorter pipeline env t pool
            (default_cache_profile client s.world pool.namespace)
            (record s {
              metric =
                  record_selection v pool.namespace pool.name
                    (if ltb 1 (length (pool ∷ rest)) then "oldest_pool" else "single_pool")
                    s.metric;
            })
  unfolding reconcile_listed select_active
  listed_selected t x xs pool rest s sorted = rw sorted (ground (arith, eq_refl pool.name))

  -- Under the client's documentation: for the pools of a namespace that remain after a deletion, of
  -- which the sort puts one first, the run after the deletion leaves the gauge, the circuit breaker
  -- and every ConfigMap as a run for that pool does, which has passed validation.
  pub reconcile_remaining-IsAlike :
      (t : Clock) (namespace : String) (x : Pool) (xs : List Pool) (pool : Pool) (rest : List Pool)
      (s : Operator v client)
      → sorter.sort pool_less (x ∷ xs) ≡ pool ∷ rest
      → pool.namespace ≡ namespace
      → IsAlike
          (reconcile_remaining v client sorter pipeline env t namespace (ok (x ∷ xs)) s).1
          (reconcile_listed v client p sorter pipeline env t pool (ok (x ∷ xs)) s).1
  unfolding reconcile_remaining reconcile_left
  reconcile_remaining-IsAlike t namespace x xs pool rest s sorted at =
      let s' : Operator v client = record s {
        metric =
            record_selection v pool.namespace pool.name
              (if ltb 1 (length (pool ∷ rest)) then "oldest_pool" else "single_pool") s.metric;
      } in
      let left : reconcile_remaining v client sorter pipeline env t pool.namespace (ok (x ∷ xs)) s
          ≡ reconcile_fetched_left v client sorter pipeline env t pool
              (default_cache_profile client s.world pool.namespace)
              (operator_namespace env.pod_namespace pool.namespace) s' =
        ap (λ l. reconcile_left v client sorter pipeline env t pool.namespace l s) sorted in
      subst
        (λ n.
          IsAlike (reconcile_remaining v client sorter pipeline env t n (ok (x ∷ xs)) s).1
            (reconcile_listed v client p sorter pipeline env t pool (ok (x ∷ xs)) s).1)
        at
        (subst
          (λ r.
            IsAlike r.1 (reconcile_listed v client p sorter pipeline env t pool (ok (x ∷ xs)) s).1)
          (sym left)
          (subst
            (λ r.
              IsAlike
                (reconcile_fetched_left v client sorter pipeline env t pool
                  (default_cache_profile client s.world pool.namespace)
                  (operator_namespace env.pod_namespace pool.namespace) s').1
                r.1)
            (sym (listed_selected t x xs pool rest s sorted))
            (reconcile_fetched_left-IsAlike t pool
              (default_cache_profile client s.world pool.namespace) s')))
