-- ===== src/Pool/Reconcile/Configured.antt =====
-- From the pool to the text, with the generator and a registered renderer in their places.
use astradns_operator.Base.{String, Option, some, Result, ok, ◌≡◌, ◌⊎◌, inl, inr}
use astradns_operator.Dict.{get}
use astradns_operator.Platform.{Platform}
use astradns_operator.Api.{Pool, Profile}
use astradns_operator.Engine.{EngineConfig}
use astradns_operator.Renderer.Registry.{Engines, Renderer, registered}
use astradns_operator.Pool.Select.{PoolSort}
use astradns_operator.Pool.Circuit.{Clock}
use astradns_operator.Pool.Metric.{GaugeVec}
use astradns_operator.Pool.Stamp.{ensure_initial_rv}
use astradns_operator.Pool.Reconcile.{
  default_cache_profile, Client, Environment, Operator, reconcile_found,
}
use astradns_operator.Pool.Reconcile.Untouched.{Same, KeepsConfigMaps, written}
use astradns_operator.Pool.Reconcile.Published.{reconcile_found-guarded}
use astradns_operator.Pool.Reconcile.Steps.{
  pipeline_of, IsConfiguration, run_pipeline-IsConfiguration,
}

module _ (v : GaugeVec) {E W : Type 0} (client : Client E W) (keeps : KeepsConfigMaps client)
    (p : Platform) (sorter : PoolSort) (env : Environment) (engines : Engines) (engine : String)
    (renderer : Renderer) (known : get (registered p engines) engine ≡ some renderer)
    (marshal : EngineConfig → Result String String) where
  -- Where patches of pools and their status touch no ConfigMap, and the renderer is the one that is
  -- registered for the engine's type: a run for a pool that exists changes no ConfigMap, or it has
  -- written to the agent's the JSON text, within the size limit, of a configuration generated from the
  -- stamped pool and its namespace's profile, which is well-formed, and the engine supports the
  -- transports, names and DNSSEC mode that the pool asks for.
  pub reconcile_found-configures :
      ((pool : Pool) (w : W) → Same client (client.patch_pool pool w).1 w)
      → (t : Clock) (pool : Pool) (s : Operator v client)
      → let pipeline = pipeline_of p renderer marshal in
        let w' = (reconcile_found v client p sorter pipeline env t pool s).1.world in
        Same client w' s.world
        ⊎ ((stamped : Pool) × (w : W) × (profile : Option Profile) × (text : String)
            × (ensure_initial_rv client.patch_pool pool s.world ≡ (ok stamped, w))
            × (default_cache_profile client w stamped.namespace ≡ ok profile)
            × IsConfiguration p engines engine marshal stamped profile text
            × Same client w' (written client env stamped text w))
  reconcile_found-configures patched t pool s =
      let pipeline = pipeline_of p renderer marshal in
      elim (reconcile_found-guarded v client keeps p sorter pipeline env patched t pool s) [
        | inl same ↦ inl same
        | inr (stamped, w, made, kept, write) ↦ inr (
          stamped,
          w,
          write.profile,
          write.config_json,
          made,
          write.looked_up,
          run_pipeline-IsConfiguration p engines engine renderer marshal stamped write.profile
              write.config_json known write.valid write.made,
          write.wrote,
        )
      ]
