-- ===== src/Policy/Watch.antt =====
-- The requests that a change of a watched object makes: `mapUpstreamPoolToPolicies`,
-- `mapCacheProfileToPolicies` and `mapNamespaceToPolicies`, over the policies that the list call
-- returned, and where that fails there is no request; and `SetupWithManager`, which routes them.
pub mod Requests
pub mod Complete
use astradns_operator.Base.{String, Bool, ◌==◌, List, [], ◌∷◌, any, Result, ok, err, if◌then◌else◌}
use astradns_operator.Text.{trim_space}
use astradns_operator.Kube.{
  Request, Change, pool_changed, profile_changed, policy_changed, namespace_changed,
}
use astradns_operator.Policy.{Policy}

abbrev pub request_of : Policy → Request
request_of policy = record { namespace = policy.namespace; name = policy.name }

-- the loop of each: the policies that the test takes
unfoldable pub requests_of : (Policy → Bool) → List Policy → List Request
requests_of test [] = []
requests_of test (policy ∷ policies) =
    let rest = requests_of test policies in if test policy then request_of policy ∷ rest else rest

abbrev pub on_list : {E : Type 0} → (Policy → Bool) → Result E (List Policy) → List Request
on_list test (err e) = []
on_list test (ok policies) = requests_of test policies

-- the tests of the three loops, by the name of the object that changed
unfoldable pub names_pool : String → Policy → Bool
names_pool name policy = trim_space policy.upstream_pool_ref == name

unfoldable pub names_profile : String → Policy → Bool
names_profile name policy = trim_space policy.cache_profile_ref == name

unfoldable pub names_namespace : String → Policy → Bool
names_namespace name policy = any (λ n. trim_space n == name) policy.selector_namespaces

module _ {E : Type 0} where
  -- `mapUpstreamPoolToPolicies`, over the list call by namespace
  unfoldable pub map_upstream_pool_to_policies :
      (String → Result E (List Policy)) → String → String → List Request
  unfolding names_pool requests_of
  map_upstream_pool_to_policies list namespace name = on_list (names_pool name) (list namespace)

  -- `mapCacheProfileToPolicies`
  unfoldable pub map_cache_profile_to_policies :
      (String → Result E (List Policy)) → String → String → List Request
  unfolding names_profile requests_of
  map_cache_profile_to_policies list namespace name = on_list (names_profile name) (list namespace)

  -- `mapNamespaceToPolicies`, over the list call on all namespaces
  unfoldable pub map_namespace_to_policies : Result E (List Policy) → String → List Request
  unfolding names_namespace requests_of
  map_namespace_to_policies listed name = on_list (names_namespace name) listed

  -- what `SetupWithManager` makes of a change: `For` the policy itself, the three functions for the
  -- objects that are watched, over the list calls by namespace and on all namespaces
  unfoldable pub requests_on :
      (String → Result E (List Policy)) → Result E (List Policy) → Change → List Request
  unfolding map_upstream_pool_to_policies map_cache_profile_to_policies map_namespace_to_policies
  requests_on list all (policy_changed namespace name) =
      record { namespace = namespace; name = name } ∷ []
  requests_on list all (pool_changed namespace name) =
      map_upstream_pool_to_policies list namespace name
  requests_on list all (profile_changed namespace name) =
      map_cache_profile_to_policies list namespace name
  requests_on list all (namespace_changed name) = map_namespace_to_policies all name
