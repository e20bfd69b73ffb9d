-- ===== src/Tests/Configures.antt =====
-- A run of the pool reconciler with the generator and the renderer of Unbound.
use astradns_operator.Base.{String, Option, some, ok, Result, ◌≡◌, ◌⊎◌, refl}
use astradns_operator.Dict.{get}
use astradns_operator.Api.{Pool, Profile}
use astradns_operator.Engine.{EngineConfig}
use astradns_operator.Template.{Templates}
use astradns_operator.Renderer.Registry.{Engines, unbound_renderer, registered}
use astradns_operator.Pool.Stamp.{ensure_initial_rv}
use astradns_operator.Pool.Reconcile.{default_cache_profile, reconcile_found}
use astradns_operator.Pool.Reconcile.Untouched.{Same, written}
use astradns_operator.Pool.Reconcile.Steps.{pipeline_of, IsConfiguration}
use astradns_operator.Pool.Reconcile.Configured.{reconcile_found-configures}
use astradns_operator.Samples.{platform}
use astradns_operator.Tests.ConfigMaps.{Cluster, no_maps, noon}
use astradns_operator.Tests.Pools.{insertion, series_map}
use astradns_operator.Tests.Reconciles.{pool, cluster, environment, start}

-- Templates that print a fixed text.
abbrev templates : Templates
templates = record {
  Template = String;
  TemplateData = EngineConfig;
  validate = λ c. ok tt;
  new_data = λ c. c;
  parse = ok "conf";
  execute = λ t c. ok t;
}

abbrev pub engines : Engines
engines = record {
  unbound_type = "unbound";
  coredns_type = "coredns";
  powerdns_type = "powerdns";
  unbound_templates = templates;
  coredns_templates = templates;
  powerdns_templates = templates;
}

abbrev marshal : EngineConfig → Result String String
marshal c = ok "{}"

pub unbound_is_registered :
    get (registered platform engines) "unbound" ≡ some (unbound_renderer platform engines)
unfolding registered get
unbound_is_registered = refl

reconcile_found-configures_example :
    let pipeline = pipeline_of platform (unbound_renderer platform engines) marshal in
    let run =
      reconcile_found series_map cluster platform insertion pipeline environment noon pool start in
    let w' = run.1.world in
    Same cluster w' no_maps
    ⊎ ((stamped : Pool) × (w : Cluster) × (profile : Option Profile) × (text : String)
        × (ensure_initial_rv cluster.patch_pool pool no_maps ≡ (ok stamped, w))
        × (default_cache_profile cluster w stamped.namespace ≡ ok profile)
        × IsConfiguration platform engines "unbound" marshal stamped profile text
        × Same cluster w' (written cluster environment stamped text w))
reconcile_found-configures_example =
    reconcile_found-configures series_map cluster (λ q c w n m. refl) platform insertion environment
      engines "unbound" (unbound_renderer platform engines) unbound_is_registered marshal
      (λ q w n m. refl) noon pool start
