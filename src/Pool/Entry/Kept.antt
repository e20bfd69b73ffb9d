-- ===== src/Pool/Entry/Kept.antt =====
-- What the steps of a run for a pool that exists keep of the reconciler's own state.
use astradns_operator.Base.{
  Option, ◌<◌, ◌&&◌, not, ◌==◌, ltb, String, some, List, Result, ok, err, ◌≡◌, subst, sym, eq_iff,
  arith, Bool-cases, inl, inr,
}
use astradns_operator.Platform.{Platform}
use astradns_operator.Api.{Pool, Profile}
use astradns_operator.Pool.Validate.{PoolError, validate_pool}
use astradns_operator.Pool.Select.{PoolSort, select_active}
use astradns_operator.Pool.Circuit.{
  threshold, Circuit, Clock, UpsertError, circuit_open, write_failed, upsert,
}
use astradns_operator.Pool.Circuit.Phase.{phase, upsert-phase, upsert_other, is_ok}
use astradns_operator.Pool.Circuit.Runs.{next_phase_bound}
use astradns_operator.Pool.Metric.{GaugeVec, record_selection}
use astradns_operator.Pool.Metric.Agreement.{Agrees, record_selection-Agrees}
use astradns_operator.Pool.ConfigMap.{upsert_config_map, operator_namespace}
use astradns_operator.Pool.Stamp.{ensure_initial_rv}
use astradns_operator.Pool.Reconcile.{
  default_cache_profile, Client, Pipeline, Environment, PipelineError, Operator, report_upsert,
  publish, reconcile_with, reconcile_made, reconcile_fetched, reconcile_listed, reconcile_checked,
  reconcile_stamped, reconcile_found, report,
}
use astradns_operator.Pool.Deletion.{report_upsert_left}

-- Fewer than three failures are on every count.
abbrev pub IsBounded : Circuit → Type 0
IsBounded c = (namespace : String) → (phase c namespace).failures < threshold

pub upsert-IsBounded :
    {E W : Type 0} (write : W → Result E (Unit {0}) × W) (namespace : String) (t : Clock) (w : W)
    (c : Circuit)
    → IsBounded c
    → IsBounded (upsert write namespace t w c).2
upsert-IsBounded write namespace t w c h other = elim (Bool-cases (namespace == other)) [
  | inr apart ↦
      let kept =
        upsert_other write namespace t w c other (ground (arith, apart, eq_iff namespace other)) in
      subst (λ ph. ph.failures < threshold) (sym kept) (h other)
  | inl same ↦
      let at : namespace ≡ other = ground (arith, same, eq_iff namespace other) in
      let step = (upsert-phase write namespace t w c).0 in
      subst (λ n. (phase (upsert write namespace t w c).2 n).failures < threshold) at
        (subst (λ ph. ph.failures < threshold) (sym step)
          (next_phase_bound write namespace t (is_ok (write w).0) (phase c namespace)
            (h namespace)))
]

module _ (v : GaugeVec) {E W : Type 0} (client : Client E W) (p : Platform) (sorter : PoolSort)
    (env : Environment) where
  -- The reconciler's own fields: the gauge agrees with the map, and the counts are bounded.
  abbrev pub IsKept : Operator v client → Type 0
  IsKept s = Agrees v s.metric × IsBounded s.circuit

  report_upsert-IsKept :
      (pool : Pool) (r : Result (UpsertError E) (Unit {0})) (s : Operator v client)
      → IsKept s
      → IsKept (report_upsert v client pool r s).1
  unfolding report_upsert report
  report_upsert-IsKept pool (ok _) s h = h
  report_upsert-IsKept pool (err (circuit_open u)) s h = h
  report_upsert-IsKept pool (err (write_failed e)) s h = h

  pub report_upsert_left-IsKept :
      (pipeline : Pipeline) (pool : Pool) (r : Result (UpsertError E) (Unit {0}))
      (s : Operator v client)
      → IsKept s
      → IsKept (report_upsert_left v client sorter pipeline env pool r s).1
  unfolding report_upsert_left report
  report_upsert_left-IsKept pipeline pool (ok _) s h = h
  report_upsert_left-IsKept pipeline pool (err (circuit_open u)) s h = h
  report_upsert_left-IsKept pipeline pool (err (write_failed e)) s h = h

  reconcile_made-IsKept :
      (pipeline : Pipeline) (t : Clock) (pool : Pool) (r : Result PipelineError String)
      (s : Operator v client)
      → IsKept s
      → IsKept (reconcile_made v client p sorter pipeline env t pool r s).1
  unfolding reconcile_made publish report
  reconcile_made-IsKept pipeline t pool (err e) s h = h
  reconcile_made-IsKept pipeline t pool (ok config_json) s h =
      let namespace = operator_namespace env.pod_namespace pool.namespace in
      let write =
        upsert_config_map client.config_maps env.config_map_variable namespace config_json in
      let (r, w, c) = upsert write namespace t s.world s.circuit in
      report_upsert-IsKept pool r (record s { world = w; circuit = c })
        (h.0, upsert-IsBounded write namespace t s.world s.circuit h.1)

  reconcile_fetched-IsKept :
      (pipeline : Pipeline) (t : Clock) (pool : Pool) (g : Result E (Option Profile))
      (s : Operator v client)
      → IsKept s
      → IsKept (reconcile_fetched v client p sorter pipeline env t pool g s).1
  unfolding reconcile_fetched reconcile_with report
  reconcile_fetched-IsKept pipeline t pool (ok profile) s h =
      reconcile_made-IsKept pipeline t pool _ s h
  reconcile_fetched-IsKept pipeline t pool (err e) s h = h

  reconcile_listed-IsKept :
      (pipeline : Pipeline) (t : Clock) (pool : Pool) (r : Result E (List Pool))
      (s : Operator v client)
      → IsKept s
      → IsKept (reconcile_listed v client p sorter pipeline env t pool r s).1
  unfolding reconcile_listed report
  reconcile_listed-IsKept pipeline t pool (err e) s h = h
  reconcile_listed-IsKept pipeline t pool (ok pools) s h =
      let active = select_active sorter pools in
      let metric = record_selection v pool.namespace active.name active.reason s.metric in
      let s' : Operator v client = record s { metric = metric } in
      let recorded : IsKept s' = (
        (record_selection-Agrees v pool.namespace active.name active.reason s.metric h.0).0,
        h.1,
      ) in
      elim (Bool-cases (ltb 1 active.count && not (pool.name == active.name))) [
        | inl superseded ↦ rw superseded recorded
        | inr selected ↦ rw selected (
            reconcile_fetched-IsKept pipeline t pool
              (default_cache_profile client s.world pool.namespace) s' recorded)
      ]

  reconcile_checked-IsKept :
      (pipeline : Pipeline) (t : Clock) (pool : Pool) (r : Result PoolError (Unit {0}))
      (s : Operator v client)
      → IsKept s
      → IsKept (reconcile_checked v client p sorter pipeline env t pool r s).1
  unfolding reconcile_checked report
  reconcile_checked-IsKept pipeline t pool (err e) s h = h
  reconcile_checked-IsKept pipeline t pool (ok _) s h =
      reconcile_listed-IsKept pipeline t pool (client.list_pools s.world pool.namespace) s h

  reconcile_stamped-IsKept :
      (pipeline : Pipeline) (t : Clock) (r : Result E Pool) (s : Operator v client)
      → IsKept s
      → IsKept (reconcile_stamped v client p sorter pipeline env t r s).1
  unfolding reconcile_stamped
  reconcile_stamped-IsKept pipeline t (err e) s h = h
  reconcile_stamped-IsKept pipeline t (ok pool) s h =
      reconcile_checked-IsKept pipeline t pool (validate_pool p (some pool)) s h

  pub reconcile_found-IsKept :
      (pipeline : Pipeline) (t : Clock) (pool : Pool) (s : Operator v client)
      → IsKept s
      → IsKept (reconcile_found v client p sorter pipeline env t pool s).1
  unfolding reconcile_found
  reconcile_found-IsKept pipeline t pool s h =
      let (r, w) = ensure_initial_rv client.patch_pool pool s.world in
      reconcile_stamped-IsKept pipeline t r (record s { world = w }) h
