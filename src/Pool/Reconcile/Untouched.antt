-- ===== src/Pool/Reconcile/Untouched.antt =====
-- Which steps of a run leave the ConfigMaps as they are.
use astradns_operator.Base.{
  String, Bool, Result, ok, err, Option-cases, Bool-cases, ◌≡◌, ◌∙◌, ap, ◌⊎◌, inl, inr, arith,
}
use astradns_operator.Platform.{Platform}
use astradns_operator.Api.{Pool}
use astradns_operator.Pool.Select.{PoolSort, initial_rv_annotation}
use astradns_operator.Pool.Circuit.{UpsertError, circuit_open, write_failed, Clock, upsert}
use astradns_operator.Pool.Circuit.Phase.{upsert-phase, holds_at, phase}
use astradns_operator.Pool.Metric.{GaugeVec}
use astradns_operator.Pool.ConfigMap.{upsert_config_map, operator_namespace}
use astradns_operator.Pool.Stamp.{annotations_of, stamp, ensure_initial_rv}
use astradns_operator.Dict.{get}
use astradns_operator.Pool.Reconcile.{
  Condition, Client, Pipeline, Environment, Outcome, Operator, report, report_upsert, publish,
}

module _ {E W : Type 0} (client : Client E W) where
  -- The two worlds store the same ConfigMaps.
  abbrev pub Same : W → W → Type 0
  Same w w' = (n m : String) → client.config_maps.stored w n m ≡ client.config_maps.stored w' n m

  -- What the documentation of the client says of patching a status: no ConfigMap is touched.
  abbrev pub KeepsConfigMaps : Type 0
  KeepsConfigMaps = (pool : Pool) (c : Condition) (w : W) → Same (client.patch_status pool c w).1 w

  -- The world after the text for a pool is written.
  abbrev pub written : Environment → Pool → String → W → W
  written env pool config_json w =
      let namespace = operator_namespace env.pod_namespace pool.namespace in
      (upsert_config_map client.config_maps env.config_map_variable namespace config_json w).1

  pub ensure_initial_rv-Same :
      ((pool : Pool) (w : W) → Same (client.patch_pool pool w).1 w)
      → (pool : Pool) (w : W) → Same (ensure_initial_rv client.patch_pool pool w).1 w
  unfolding ensure_initial_rv
  ensure_initial_rv-Same patched pool w n m =
      elim (Option-cases (get (annotations_of pool) initial_rv_annotation)) [
        | inl unstamped ↦ ground (arith, unstamped, patched (stamp pool) w n m)
        | inr (v, stamped) ↦ ground (arith, stamped)
      ]

module _ (v : GaugeVec) {E W : Type 0} (client : Client E W) (keeps : KeepsConfigMaps client) where
  pub report-Same :
      (pool : Pool) (is_ready : Bool) (reason : String) (outcome : Outcome E)
      (s : Operator v client)
      → Same client (report v client pool is_ready reason outcome s).1.world s.world
  unfolding report
  report-Same pool is_ready reason outcome s =
      keeps pool (record { is_ready = is_ready; reason = reason }) s.world

  pub report_upsert-Same :
      (pool : Pool) (r : Result (UpsertError E) (Unit {0})) (s : Operator v client)
      → Same client (report_upsert v client pool r s).1.world s.world
  unfolding report_upsert report
  report_upsert-Same pool (ok _) s = keeps pool _ s.world
  report_upsert-Same pool (err (circuit_open until)) s = keeps pool _ s.world
  report_upsert-Same pool (err (write_failed e)) s = keeps pool _ s.world

  module _ (p : Platform) (sorter : PoolSort) (pipeline : Pipeline) (env : Environment) where
    pub publish-Same :
        (t : Clock) (pool : Pool) (config_json : String) (s : Operator v client)
        → let w' = (publish v client p sorter pipeline env t pool config_json s).1.world in
          Same client w' s.world ⊎ Same client w' (written client env pool config_json s.world)
    unfolding publish
    publish-Same t pool config_json s =
        let namespace = operator_namespace env.pod_namespace pool.namespace in
        let write =
          upsert_config_map client.config_maps env.config_map_variable namespace config_json in
        let (r, w, c) = upsert write namespace t s.world s.circuit in
        let kept = report_upsert-Same pool r (record s { world = w; circuit = c }) in
        let world = (upsert-phase write namespace t s.world s.circuit).2 in
        elim (Bool-cases (holds_at t.asked (phase s.circuit namespace).deadline)) [
          | inl holds ↦ inl (λ n m.
              kept n m ∙ ap (λ x. client.config_maps.stored x n m) (ground (arith, world, holds)))
          | inr free ↦ inr (λ n m.
              kept n m ∙ ap (λ x. client.config_maps.stored x n m) (ground (arith, world, free)))
        ]
