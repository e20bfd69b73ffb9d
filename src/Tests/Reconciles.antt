-- ===== src/Tests/Reconciles.antt =====
-- A run of the pool reconciler on a cluster with one pool.
use astradns_operator.Base.{
  Result, none, any, false, not, ◌&&◌, ◌==◌, ltb, String, some, [], ◌∷◌, ok, ◌≡◌, refl, ◌⊎◌,
}
use astradns_operator.Api.{Pool}
use astradns_operator.Generator.{generate, convert_upstreams, convert_upstream}
use astradns_operator.Pool.Validate.{
  validate_pool, check_upstreams, check_upstream, is_valid_address, parse_transport, effective_port,
  default_port, parse_dnssec_mode,
}
use astradns_operator.Base.Sort.{sort_stable}
use astradns_operator.Text.{trim_space, is_space, to_lower}
use astradns_operator.Dict.{get}
use astradns_operator.Pool.Select.{select_active}
use astradns_operator.Pool.Circuit.{upsert}
use astradns_operator.Pool.ConfigMap.{validate_payload_size, upsert_config_map, operator_namespace}
use astradns_operator.Pool.Reconcile.Ready.{IsSmooth}
use astradns_operator.Pool.Stamp.{ensure_initial_rv}
use astradns_operator.Kube.{fetched, absent}
use astradns_operator.Pool.Reconcile.{
  default_cache_profile, Client, Pipeline, Environment, Operator, reconcile_found, run_pipeline,
}
use astradns_operator.Pool.Reconcile.Published.{IsWrite, reconcile_found-guarded}
use astradns_operator.Pool.Reconcile.Untouched.{Same}
use astradns_operator.Samples.{platform, plain_pool}
use astradns_operator.Tests.ConfigMaps.{Cluster, client, no_maps, closed, noon}
use astradns_operator.Tests.Pools.{insertion, series_map, unset}

abbrev pub pool : Pool
pool = plain_pool "main" 10 (some "7")

abbrev pub cluster : Client String Cluster
cluster = record {
  get_pool = λ w namespace name. fetched pool;
  list_pools = λ w namespace. ok (pool ∷ []);
  get_profile = λ w namespace name. absent;
  patch_pool = λ q w. (ok q, w);
  patch_status = λ q c w. (ok tt, w);
  config_maps = client;
}

abbrev pub pipeline : Pipeline
pipeline = record { generate = generate platform; render = λ c. ok "conf"; marshal = λ c. ok "{}" }

abbrev pub environment : Environment
environment = record { pod_namespace = ""; config_map_variable = "" }

abbrev pub start : Operator series_map cluster
start = record { world = no_maps; circuit = closed; metric = unset }

abbrev write : Cluster → Result String (Unit {0}) × Cluster
write = upsert_config_map client "" "dns" "{}"

pub already_stamped : ensure_initial_rv cluster.patch_pool pool no_maps ≡ (ok pool, no_maps)
unfolding ensure_initial_rv get
already_stamped = refl

pub pool_is_valid : validate_pool platform (some pool) ≡ ok tt
unfolding validate_pool check_upstreams check_upstream trim_space is_space is_valid_address
    parse_transport to_lower effective_port default_port any parse_dnssec_mode
pool_is_valid = refl

pub pool_is_first :
    (ltb 1 (select_active insertion (pool ∷ [])).count
      && not (pool.name == (select_active insertion (pool ∷ [])).name))
    ≡ false
unfolding select_active sort_stable
pool_is_first = refl

pub no_profile_found : default_cache_profile cluster no_maps "dns" ≡ ok none
unfolding default_cache_profile
no_profile_found = refl

pub pipeline_passes : run_pipeline pipeline pool none ≡ ok "{}"
unfolding run_pipeline generate convert_upstreams sort_stable convert_upstream trim_space is_space
    validate_payload_size
pipeline_passes = refl

pub write_succeeds :
    (upsert
      (upsert_config_map client "" (operator_namespace "" "dns") "{}")
      (operator_namespace "" "dns")
      noon
      no_maps
      closed).0
    ≡ ok tt
unfolding upsert get upsert_config_map
write_succeeds = refl

reconcile_found-guarded_example :
    let run =
      reconcile_found series_map cluster platform insertion pipeline environment noon pool start in
    let w' = run.1.world in
    Same cluster w' no_maps
    ⊎ ((stamped : Pool) × (w : Cluster) × (ensure_initial_rv cluster.patch_pool pool no_maps
          ≡ (ok stamped, w))
        × Same cluster w no_maps
        × IsWrite series_map cluster
            (λ q c w n m. refl)
            platform
            insertion
            pipeline
            environment
            stamped
            w
            w')
reconcile_found-guarded_example =
    reconcile_found-guarded series_map cluster (λ q c w n m. refl) platform insertion pipeline
      environment (λ q w n m. refl) noon pool start

abbrev pub smooth :
    IsSmooth series_map cluster platform insertion pipeline environment noon pool start
smooth = record {
  stamped = pool;
  w = no_maps;
  stamp_patched = already_stamped;
  valid = pool_is_valid;
  pools = pool ∷ [];
  listed = refl;
  selected = pool_is_first;
  profile = none;
  looked_up = no_profile_found;
  config_json = "{}";
  made = pipeline_passes;
  written = write_succeeds;
}
