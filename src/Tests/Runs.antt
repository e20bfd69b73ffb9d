-- ===== src/Tests/Runs.antt =====
-- Runs of the pool reconciler one after the other, and of the cache profile controller.
use Prim.Native.String.{len}
use astradns_operator.Base.{
  ℕ, ◌+◌, ◌*◌, ◌^◌, ◌≤◌, String, true, none, some, [], ◌∷◌, ok, ◌≡◌, ◌↔◌, refl, ap, eq_refl, inr,
  arith,
}
use astradns_operator.Kube.{fetched, Request}
use astradns_operator.Api.{Pool}
use astradns_operator.Generator.{default_cache, apply_profile}
use astradns_operator.Base.Sort.{sort_stable}
use astradns_operator.Text.{trim_space, parse_int64}
use astradns_operator.Dict.{get, put}
use astradns_operator.Pool.Select.{pool_less, initial_rv}
use astradns_operator.Pool.Metric.Agreement.{Agrees}
use astradns_operator.Pool.ConfigMap.{
  config_key, config_map_name, set_config, operator_namespace, upsert_config_map,
}
use astradns_operator.Pool.Circuit.{upsert}
use astradns_operator.Pool.Reconcile.Ready.{reconcile_found-ready}
use astradns_operator.Pool.ConfigMap.Entries.{entry}
use astradns_operator.Pool.ConfigMap.Limit.{IsAtomic}
use astradns_operator.Pool.Reconcile.{report, Operator, reconcile_listed}
use astradns_operator.Pool.Deletion.{reconcile_remaining}
use astradns_operator.Pool.Deletion.Selected.{IsAlike, reconcile_remaining-IsAlike}
use astradns_operator.Pool.Entry.{reconcile, map_cache_profile_to_pools}
use astradns_operator.Pool.Entry.Kept.{IsBounded}
use astradns_operator.Pool.Entry.Invariant.{Reached, Reached-keeps}
use astradns_operator.Pool.Entry.Bounded.{reconcile-Fits}
use astradns_operator.Profile.Bounds.{IsSane, IsNonNegative}
use astradns_operator.Profile.Reconcile.{ActiveCondition, ProfileClient}
use astradns_operator.Profile.Reconcile
use astradns_operator.Profile.Reconcile.Active.{reconcile-active_iff}
use astradns_operator.Samples.{platform, plain_pool, profile}
use astradns_operator.Tests.ConfigMaps.{Cluster, client, client-IsStore, no_maps, noon}
use astradns_operator.Tests.Pools.{insertion, series_map}
use astradns_operator.Tests.Reconciles.{pool, cluster, pipeline, environment, start, smooth}

abbrev pub asked : Request
asked = record { namespace = "dns"; name = "main" }

abbrev after_one : Operator series_map cluster
after_one =
    (reconcile series_map cluster platform insertion environment (some pipeline) noon asked start).1

Reached-keeps_example : Agrees series_map after_one.metric × IsBounded after_one.circuit
Reached-keeps_example =
    Reached-keeps series_map cluster platform insertion environment start after_one (λ l. refl) refl
      refl (Reached.run start (some pipeline) noon asked Reached.here)

abbrev younger : Pool
younger = plain_pool "alpha" 20 (some "9")

oldest_is_first : insertion.sort pool_less (younger ∷ pool ∷ []) ≡ pool ∷ younger ∷ []
unfolding sort_stable pool_less initial_rv parse_int64 get
oldest_is_first = refl

reconcile_remaining-IsAlike_example :
    IsAlike series_map cluster
      (λ q c w n m. refl)
      platform
      insertion
      pipeline
      environment
      (reconcile_remaining series_map cluster insertion pipeline environment noon "dns"
        (ok (younger ∷ pool ∷ []))
        start).1
      (reconcile_listed series_map cluster platform insertion pipeline environment noon pool
        (ok (younger ∷ pool ∷ []))
        start).1
reconcile_remaining-IsAlike_example =
    reconcile_remaining-IsAlike series_map cluster (λ q c w n m. refl) platform insertion pipeline
      environment noon "dns" younger (pool ∷ []) pool (younger ∷ []) start oldest_is_first refl

pub client-IsAtomic : IsAtomic client
client-IsAtomic w namespace name f = inr (rw (eq_refl namespace, eq_refl name) refl)

no_maps_fit :
    (n m text : String)
    → entry (no_maps n m) config_key ≡ some text
    → len text + len config_key + 4 * 2 ^ 10 ≤ 2 ^ 20
no_maps_fit n m text there = absurd (ground (arith, there))

abbrev maps_after : Cluster
maps_after =
    (reconcile series_map cluster platform insertion environment (some pipeline) noon asked
      start).1.world

newly_published : entry (maps_after "dns" "astradns-agent-config") config_key ≡ some "{}"
unfolding reconcile operator_namespace upsert upsert_config_map get report trim_space
    config_map_name set_config put
newly_published =
    ap (λ r. entry (r.1.world "dns" "astradns-agent-config") config_key)
      (reconcile_found-ready series_map cluster platform insertion pipeline environment noon pool
        start smooth)

reconcile-Fits_example : len "{}" + len config_key + 4 * 2 ^ 10 ≤ 2 ^ 20
reconcile-Fits_example =
    reconcile-Fits series_map cluster client-IsStore client-IsAtomic (λ q c w n m. refl) platform
      insertion environment (λ q w n m. refl) (some pipeline) noon asked start no_maps_fit "dns"
      "astradns-agent-config" "{}" newly_published

mapped : map_cache_profile_to_pools (cluster.list_pools no_maps) "dns" ≡ asked ∷ []
unfolding map_cache_profile_to_pools
mapped = refl

-- A client with one profile, which counts its patches.
abbrev one_profile : ProfileClient String ℕ
one_profile = record {
  get_profile = λ w namespace name. fetched profile;
  patch_status = λ q condition w. (ok tt, w + 1);
}

abbrev about_profile : Request
about_profile = record { namespace = "dns"; name = "default" }

reconcile-active_iff_example :
    (condition : ActiveCondition) × (Reconcile.reconcile one_profile about_profile 0 ≡ (none, 1))
    × ((condition.is_active ≡ true)
        ↔ (IsNonNegative profile × IsSane (apply_profile default_cache (some profile))))
reconcile-active_iff_example = reconcile-active_iff one_profile about_profile 0 profile refl
