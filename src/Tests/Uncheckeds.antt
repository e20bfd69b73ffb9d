-- ===== src/Tests/Uncheckeds.antt =====
-- A pool with one upstream twice, when another pool of its namespace is deleted.
use astradns_operator.Base.{String, pos, false, none, some, [], ◌∷◌, any, ok, err, ◌≡◌, refl}
use astradns_operator.Base.Sort.{sort_stable}
use astradns_operator.Text.{trim_space, is_space, to_lower}
use astradns_operator.Dict.{get}
use astradns_operator.Api.{Pool}
use astradns_operator.Generator.{
  generate, convert_upstreams, convert_upstream, upstream_less, normalize_preference,
  normalize_weight,
}
use astradns_operator.Pool.Validate.{
  duplicated, validate_pool, check_upstreams, check_upstream, is_valid_address, parse_transport,
  effective_port, default_port, parse_dnssec_mode, same_key,
}
use astradns_operator.Pool.Select.{pool_less}
use astradns_operator.Pool.ConfigMap.{validate_payload_size, upsert_config_map, operator_namespace}
use astradns_operator.Pool.Reconcile.{default_cache_profile, Client, Operator, run_pipeline}
use astradns_operator.Base.{◌==◌, if◌then◌else◌, arith}
use astradns_operator.Kube.{fetched, absent}
use astradns_operator.Text.{parse_int64}
use astradns_operator.Pool.Select.{initial_rv}
use astradns_operator.Pool.Select.Order.{IsStamped}
use astradns_operator.Pool.Circuit.Phase.{holds_at, phase}
use astradns_operator.Pool.Entry.{reconcile}
use astradns_operator.Pool.Entry.Spec.{view, Stays, Sets}
use astradns_operator.Pool.Entry.Unchecked.{reconcile-unchecked}
use astradns_operator.Tests.Runs.{client-IsAtomic}
use astradns_operator.Samples.{platform, plain_pool, spec_of, upstream}
use astradns_operator.Tests.ConfigMaps.{Cluster, client-IsStore, no_maps, closed, noon}
use astradns_operator.Tests.Pools.{insertion, series_map, unset}
use astradns_operator.Tests.Reconciles.{cluster, pipeline, environment}

abbrev twice : Pool
twice = record (plain_pool "main" 10 (some "7")) {
  spec = spec_of (
      upstream "1.1.1.1" "dns" (pos 1) (pos 100) ∷ upstream "1.1.1.1" "dns" (pos 1) (pos 100) ∷ []);
}

abbrev left_alone : Client String Cluster
left_alone = record cluster {
  list_pools = λ w namespace. ok (twice ∷ []);
  get_pool = λ w namespace name. if name == "main" then fetched twice else absent;
}

abbrev before : Operator series_map left_alone
before = record { world = no_maps; circuit = closed; metric = unset }

twice_is_refused : validate_pool platform (some twice) ≡ err (duplicated 1)
unfolding validate_pool check_upstreams check_upstream trim_space is_space is_valid_address
    parse_transport to_lower effective_port default_port any parse_dnssec_mode same_key
twice_is_refused = refl

twice_is_first : insertion.sort pool_less (twice ∷ []) ≡ twice ∷ []
unfolding sort_stable
twice_is_first = refl

no_profile_there : default_cache_profile left_alone no_maps "dns" ≡ ok none
unfolding default_cache_profile
no_profile_there = refl

twice_is_rendered : run_pipeline pipeline twice none ≡ ok "{}"
unfolding run_pipeline generate convert_upstreams sort_stable convert_upstream trim_space is_space
    validate_payload_size upstream_less normalize_preference normalize_weight
twice_is_rendered = refl

written_to_dns :
    (upsert_config_map left_alone.config_maps "" (operator_namespace "" "dns") "{}" no_maps).0
    ≡ ok tt
unfolding upsert_config_map
written_to_dns = refl

twice-IsStamped : IsStamped twice
unfolding initial_rv parse_int64
twice-IsStamped = ((λ e. cc), omega arith)

circuit_is_closed : holds_at 12 (phase closed (operator_namespace "" "dns")).deadline ≡ false
unfolding get
circuit_is_closed = refl

reconcile-unchecked_example :
    let after = λ (name : String).
      view left_alone
        (reconcile series_map left_alone platform insertion environment
          (some pipeline)
          noon
          (record { namespace = "dns"; name = name })
          before).1.world in
    Stays (view left_alone no_maps) (after "main")
    × Sets environment
        (operator_namespace "" "dns")
        (some "{}")
        (view left_alone no_maps)
        (after "spare")
reconcile-unchecked_example =
    reconcile-unchecked left_alone client-IsStore client-IsAtomic (λ q c w n m. refl)
      (λ q w n m. refl) platform insertion environment series_map pipeline noon "spare" twice
      (twice ∷ []) [] none "{}" (duplicated 1) before twice_is_refused twice-IsStamped refl refl
      refl twice_is_first no_profile_there twice_is_rendered circuit_is_closed written_to_dns
