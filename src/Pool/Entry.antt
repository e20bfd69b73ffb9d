-- ===== src/Pool/Entry.antt =====
-- `Reconcile` by the pool that the request names, and the watch on cache profiles.
pub mod Kept
pub mod Invariant
pub mod Preserved
pub mod Bounded
pub mod Frame
pub mod Spec
pub mod Moves
pub mod Refines
pub mod Steady
pub mod Converges
pub mod Publishes
pub mod Unchecked
use astradns_operator.Base.{String, Option, none, some, List, [], ◌∷◌, map, Result, ok, err}
use astradns_operator.Platform.{Platform}
use astradns_operator.Kube.{
  Fetched, fetched, absent, broken, Request, Change, pool_changed, profile_changed, policy_changed,
  namespace_changed,
}
use astradns_operator.Api.{Pool}
use astradns_operator.Pool.Select.{PoolSort}
use astradns_operator.Pool.Circuit.{Clock}
use astradns_operator.Pool.Metric.{GaugeVec}
use astradns_operator.Pool.Deletion.{reconcile_after_deletion}
use astradns_operator.Pool.Reconcile.{
  Client, Pipeline, Environment, Outcome, get_failed, not_configured, Operator, done,
  reconcile_found,
}

module _ (v : GaugeVec) {E W : Type 0} (client : Client E W) (p : Platform) (sorter : PoolSort)
    (env : Environment) where
  -- what follows `Get`
  unfoldable pub reconcile_read :
      Pipeline → Clock → String → Fetched E Pool → Operator v client → Outcome E × Operator v client
  reconcile_read pipeline t namespace (fetched pool) s =
      reconcile_found v client p sorter pipeline env t pool s
  reconcile_read pipeline t namespace absent s =
      reconcile_after_deletion v client sorter pipeline env t namespace s
  reconcile_read pipeline t namespace (broken e) s =
      (record { requeue_after = 0; error = some (get_failed e) }, s)

  -- `Reconcile`; `none` is a generator or a renderer that is not configured
  unfoldable pub reconcile :
      Option Pipeline → Clock → Request → Operator v client → Outcome E × Operator v client
  unfolding reconcile_read
  reconcile none t req s = (record { requeue_after = 0; error = some not_configured }, s)
  reconcile (some pipeline) t req s =
      reconcile_read pipeline t req.namespace (client.get_pool s.world req.namespace req.name) s

abbrev request_for : Pool → Request
request_for pool = record { namespace = pool.namespace; name = pool.name }

-- `mapCacheProfileToPools`, over the list call by namespace
unfoldable pub map_cache_profile_to_pools :
    {E : Type 0} → (String → Result E (List Pool)) → String → List Request
map_cache_profile_to_pools list namespace = elim (list namespace) [
  | err e ↦ []
  | ok pools ↦ map request_for pools
]

-- what `SetupWithManager` makes of a change
unfoldable pub requests_on : {E : Type 0} → (String → Result E (List Pool)) → Change → List Request
unfolding map_cache_profile_to_pools
requests_on list (pool_changed namespace name) = record { namespace = namespace; name = name } ∷ []
requests_on list (profile_changed namespace name) = map_cache_profile_to_pools list namespace
requests_on list (policy_changed namespace name) = []
requests_on list (namespace_changed name) = []
