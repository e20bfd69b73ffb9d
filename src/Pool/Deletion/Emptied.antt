-- ===== src/Pool/Deletion/Emptied.antt =====
-- The last pool of a namespace is gone.
use astradns_operator.Base.{
  String, not, ◌&&◌, ◌==◌, none, [], Result, ok, err, ◌≡◌, refl, sym, ◌∙◌, ap, subst, arith,
  if◌then◌else◌,
}
use astradns_operator.Pool.Select.{PoolSort}
use astradns_operator.Pool.Circuit.{Clock}
use astradns_operator.Pool.Metric.{GaugeVec, Labels, clear_selection}
use astradns_operator.Pool.Metric.Agreement.{Agrees, clear_selection-Agrees}
use astradns_operator.Pool.ConfigMap.{RemoveError, remove_config_key, operator_namespace}
use astradns_operator.Pool.ConfigMap.Entries.{
  entry, IsStore, is_config, remove_config_key-unpublishes,
}
use astradns_operator.Pool.Reconcile.{Client, Pipeline, Environment, Operator}
use astradns_operator.Pool.Deletion.{finish_removal, reconcile_remaining, reconcile_after_deletion}

module _ (v : GaugeVec) {E W : Type 0} (client : Client E W) (sorter : PoolSort)
    (pipeline : Pipeline) (env : Environment) where
  finish_removal_lem :
      (r : Result (RemoveError E) (Unit {0})) (w : W) (s : Operator v client)
      → (finish_removal v client sorter pipeline env (r, w) s).0.error ≡ none
      → (r ≡ ok tt)
        × ((finish_removal v client sorter pipeline env (r, w) s).1.world ≡ w)
        × ((finish_removal v client sorter pipeline env (r, w) s).1.metric ≡ s.metric)
  unfolding finish_removal
  finish_removal_lem (ok _) w s h = (refl, refl, refl)
  finish_removal_lem (err e) w s h = absurd (ground arith)

  -- Where the client keeps its documentation and the gauge exports exactly the recorded selections: a
  -- run after a deletion that finds no pool left and returns no error has left no text under the
  -- agent's key, every other entry of every ConfigMap as it was, and no series of the namespace, if
  -- that is not blank, with every other series as it was.
  pub reconcile_after_deletion-empties :
      IsStore client.config_maps
      → (t : Clock) (pool_namespace : String) (s : Operator v client) → Agrees v s.metric
      → client.list_pools s.world pool_namespace ≡ ok []
      → let run = reconcile_after_deletion v client sorter pipeline env t pool_namespace s in
        run.0.error ≡ none
        → let s' = (reconcile_after_deletion v client sorter pipeline env t pool_namespace s).1 in
          let namespace = operator_namespace env.pod_namespace pool_namespace in
          ((n m k : String)
            → entry (client.config_maps.stored s'.world n m) k ≡ (
                if is_config env.config_map_variable namespace n m k
                then none
                else entry (client.config_maps.stored s.world n m) k))
          × Agrees v s'.metric
          × ((l : Labels)
              → v.value s'.metric.gauge l ≡ (
                  if not (pool_namespace == "") && pool_namespace == l.namespace
                  then none
                  else v.value s.metric.gauge l))
  unfolding reconcile_after_deletion reconcile_remaining
  reconcile_after_deletion-empties store t pool_namespace s agrees listed silent =
      let namespace = operator_namespace env.pod_namespace pool_namespace in
      let (r, w) = remove_config_key client.config_maps env.config_map_variable namespace s.world in
      let s₁ : Operator v client = record s {
        metric = clear_selection v pool_namespace s.metric;
      } in
      let run : reconcile_after_deletion v client sorter pipeline env t pool_namespace s
          ≡ finish_removal v client sorter pipeline env (r, w) s₁ =
        ap (λ x. reconcile_remaining v client sorter pipeline env t pool_namespace x s) listed in
      let (removed, world, metric) =
        finish_removal_lem r w s₁ (sym (ap (λ o. o.0.error) run) ∙ silent) in
      let cleared = clear_selection-Agrees v pool_namespace s.metric agrees in
      let same_metric = ap (λ o. o.1.metric) run ∙ metric in
      (
        λ n m k.
            ap (λ x. entry (client.config_maps.stored x n m) k) (ap (λ o. o.1.world) run ∙ world)
            ∙ remove_config_key-unpublishes client.config_maps store env.config_map_variable
                namespace s.world n m k removed,
        subst (Agrees v) (sym same_metric) cleared.0,
        λ l. ap (λ x. v.value x.gauge l) same_metric ∙ cleared.1 l,
      )
