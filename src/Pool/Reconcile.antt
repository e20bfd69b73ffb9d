-- ===== src/Pool/Reconcile.antt =====
-- `Reconcile` for a pool that exists. Log lines and events are left out, and of a status condition its
-- message; the reads of one run see one world, which only the calls of the run change.
pub mod Untouched
pub mod Published
pub mod Ready
pub mod Steps
pub mod Configured
pub mod Writer
use astradns_operator.Base.{
  ℕ, String, Bool, true, false, not, ◌&&◌, ◌==◌, Option, none, some, List, ltb, Result, ok, err,
  map_err, ◌>>=◌, ◌>>◌, if◌then◌else◌,
}
use astradns_operator.Platform.{Platform}
use astradns_operator.Kube.{Fetched, fetched, absent, broken}
use astradns_operator.Api.{Pool, Profile}
use astradns_operator.Engine.{EngineConfig}
use astradns_operator.Generator.{GenerateError}
use astradns_operator.Template.{RenderError}
use astradns_operator.Pool.Validate.{PoolError, validate_pool}
use astradns_operator.Pool.Select.{PoolSort, select_active}
use astradns_operator.Pool.Circuit.{
  open_interval, Circuit, UpsertError, circuit_open, write_failed, Clock, upsert,
}
use astradns_operator.Pool.Metric.{GaugeVec, Metric, record_selection}
use astradns_operator.Pool.Stamp.{ensure_initial_rv}
use astradns_operator.Pool.ConfigMap.{
  ConfigMaps, RemoveError, upsert_config_map, validate_payload_size, operator_namespace,
}

-- The `Ready` condition of a pool's status.
pub record Condition : Type 0 where
  pub is_ready : Bool
  pub reason : String

-- The client's calls, by namespace and name.
pub record Client (E W : Type 0) : Type 0 where
  pub get_pool : W → String → String → Fetched E Pool
  pub list_pools : W → String → Result E (List Pool)
  pub get_profile : W → String → String → Fetched E Profile
  pub patch_pool : Pool → W → Result E Pool × W
  pub patch_status : Pool → Condition → W → Result E (Unit {0}) × W
  pub config_maps : ConfigMaps E W

-- `ConfigGen`, `ConfigRenderer` and `json.MarshalIndent`
pub record Pipeline : Type 0 where
  pub generate : Option Pool → Option Profile → Result GenerateError EngineConfig
  pub render : Option EngineConfig → Result RenderError String
  pub marshal : EngineConfig → Result String String

-- `getDefaultCacheProfile`; `none` is the nil profile
unfoldable pub default_cache_profile :
    {E W : Type 0} → Client E W → W → String → Result E (Option Profile)
default_cache_profile client w namespace = elim (client.get_profile w namespace "default") [
  | absent ↦ ok none
  | broken e ↦ err e
  | fetched profile ↦ ok (some profile)
]

-- POD_NAMESPACE and ASTRADNS_AGENT_CONFIGMAP_NAME
pub record Environment : Type 0 where
  pub pod_namespace : String
  pub config_map_variable : String

-- The steps from a pool to the text for the agent, by the one that failed.
pub data PipelineError : Type 0 where
  generation_failed validation_failed marshal_failed too_large : PipelineError

pub data ReconcileError (E : Type 0) : Type 0 where
  get_failed stamp_failed list_failed profile_failed upsert_failed status_failed :
      E → ReconcileError E
  pipeline_failed : PipelineError → ReconcileError E
  remove_failed : RemoveError E → ReconcileError E
  not_configured : ReconcileError E

-- `ctrl.Result` and the error
pub record Outcome (E : Type 0) : Type 0 where
  pub requeue_after : ℕ
  pub error : Option (ReconcileError E)

unfoldable pub reason_of : PipelineError → String
reason_of generation_failed = "ConfigGenerationFailed"
reason_of validation_failed = "ValidationFailed"
reason_of marshal_failed = "MarshalFailed"
reason_of too_large = "ConfigTooLarge"

unfoldable pub run_pipeline : Pipeline → Pool → Option Profile → Result PipelineError String
run_pipeline pipeline pool profile = do
  config ← map_err (λ e. generation_failed) (pipeline.generate (some pool) profile)
  rendered ← map_err (λ e. validation_failed) (pipeline.render (some config))
  config_json ← map_err (λ e. marshal_failed) (pipeline.marshal config)
  map_err (λ e. too_large) (validate_payload_size config_json)
  ok config_json

module _ (v : GaugeVec) {E W : Type 0} (client : Client E W) where
  -- The cluster and the fields of the reconciler.
  pub record Operator : Type 0 where
    pub world : W
    pub circuit : Circuit
    pub metric : Metric v

  -- `setReadyCondition`, and the return that follows it
  unfoldable pub report : Pool → Bool → String → Outcome E → Operator → Outcome E × Operator
  report pool is_ready reason outcome s =
      let (r, w) =
        client.patch_status pool (record { is_ready = is_ready; reason = reason }) s.world in
      (
        elim r [ ok _ ↦ outcome | err e ↦ record outcome { error = some (status_failed e) } ],
        record s { world = w },
      )

  abbrev pub done : Outcome E
  done = record { requeue_after = 0; error = none }

  -- what follows the write of the ConfigMap
  unfoldable pub report_upsert :
      Pool → Result (UpsertError E) (Unit {0}) → Operator → Outcome E × Operator
  unfolding report
  report_upsert pool (ok _) s = report pool true "Ready" done s
  report_upsert pool (err (circuit_open until)) s =
      report pool false "ConfigMapCircuitOpen" (record done { requeue_after = open_interval }) s
  report_upsert pool (err (write_failed e)) s =
      report pool false "ConfigMapUpdateFailed" (record done { error = some (upsert_failed e) }) s

  module _ (p : Platform) (sorter : PoolSort) (pipeline : Pipeline) (env : Environment) where
    -- from the ConfigMap on
    unfoldable pub publish : Clock → Pool → String → Operator → Outcome E × Operator
    unfolding report_upsert
    publish t pool config_json s =
        let namespace = operator_namespace env.pod_namespace pool.namespace in
        let write =
          upsert_config_map client.config_maps env.config_map_variable namespace config_json in
        let (r, w, c) = upsert write namespace t s.world s.circuit in
        report_upsert pool r (record s { world = w; circuit = c })

    -- from the end of the pipeline on
    unfoldable pub reconcile_made :
        Clock → Pool → Result PipelineError String → Operator → Outcome E × Operator
    unfolding publish report
    reconcile_made t pool (ok config_json) s = publish t pool config_json s
    reconcile_made t pool (err e) s = report pool false (reason_of e) done s

    -- from `Generate` on
    unfoldable pub reconcile_with : Clock → Pool → Option Profile → Operator → Outcome E × Operator
    unfolding reconcile_made
    reconcile_with t pool profile s = reconcile_made t pool (run_pipeline pipeline pool profile) s

    -- what follows `getDefaultCacheProfile`
    unfoldable pub reconcile_fetched :
        Clock → Pool → Result E (Option Profile) → Operator → Outcome E × Operator
    unfolding reconcile_with report
    reconcile_fetched t pool (ok profile) s = reconcile_with t pool profile s
    reconcile_fetched t pool (err e) s =
        report pool false "ProfileLookupFailed" (record done { error = some (profile_failed e) }) s

    -- what follows the list of the pools
    unfoldable pub reconcile_listed :
        Clock → Pool → Result E (List Pool) → Operator → Outcome E × Operator
    unfolding reconcile_fetched report default_cache_profile
    reconcile_listed t pool (err e) s = (record done { error = some (list_failed e) }, s)
    reconcile_listed t pool (ok pools) s =
        let active = select_active sorter pools in
        let s' : Operator = record s {
          metric = record_selection v pool.namespace active.name active.reason s.metric;
        } in
        if ltb 1 active.count && not (pool.name == active.name)
        then report pool false "Superseded" done s'
        else reconcile_fetched t pool (default_cache_profile client s.world pool.namespace) s'

    -- what follows the validation
    unfoldable pub reconcile_checked :
        Clock → Pool → Result PoolError (Unit {0}) → Operator → Outcome E × Operator
    unfolding reconcile_listed report
    reconcile_checked t pool (err e) s = report pool false "InvalidSpec" done s
    reconcile_checked t pool (ok _) s =
        reconcile_listed t pool (client.list_pools s.world pool.namespace) s

    -- what follows the stamp
    unfoldable pub reconcile_stamped : Clock → Result E Pool → Operator → Outcome E × Operator
    unfolding reconcile_checked
    reconcile_stamped t (err e) s = (record done { error = some (stamp_failed e) }, s)
    reconcile_stamped t (ok pool) s = reconcile_checked t pool (validate_pool p (some pool)) s

    -- `Reconcile` from the pool on that was found
    unfoldable pub reconcile_found : Clock → Pool → Operator → Outcome E × Operator
    unfolding reconcile_stamped
    reconcile_found t pool s =
        let (r, w) = ensure_initial_rv client.patch_pool pool s.world in
        reconcile_stamped t r (record s { world = w })
