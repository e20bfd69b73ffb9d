-- ===== src/Pool/Entry/Spec.antt =====
-- The operator as a machine on the entries of ConfigMaps.
use astradns_operator.Base.{
  String, false, not, ◌&&◌, ◌==◌, ltb, Option, none, some, List, [], ◌∷◌, ok, ◌≡◌, if◌then◌else◌,
}
use astradns_operator.Platform.{Platform}
use astradns_operator.Kube.{fetched, absent, Request}
use astradns_operator.Api.{Pool, Profile}
use astradns_operator.Pool.Validate.{validate_pool}
use astradns_operator.Pool.Select.{PoolSort, pool_less, select_active}
use astradns_operator.Pool.ConfigMap.{operator_namespace}
use astradns_operator.Pool.ConfigMap.Entries.{entry, is_config}
use astradns_operator.Pool.Reconcile.{
  Client, Pipeline, Environment, run_pipeline, default_cache_profile,
}
use astradns_operator.Pool.Stamp.{ensure_initial_rv}

-- The entries of the ConfigMaps, by namespace, name and key.
abbrev pub View : Type 0
View = String → String → String → Option String

abbrev pub Stays : View → View → Type 0
Stays before after = (n m k : String) → after n m k ≡ before n m k

-- The agent's entry in a namespace is set, or removed at `none`, and no other.
abbrev pub Sets : Environment → String → Option String → View → View → Type 0
Sets env namespace g before after =
    (n m k : String)
    → after n m k ≡ (if is_config env.config_map_variable namespace n m k then g else before n m k)

abbrev pub view : {E W : Type 0} → Client E W → W → View
view client w n m k = entry (client.config_maps.stored w n m) k

module _ {E W : Type 0} (client : Client E W) (p : Platform) (sorter : PoolSort)
    (env : Environment) where
  -- What one run may do to the entries, for a request in a world: nothing; to publish a text that the
  -- pipeline made of the stamped pool of the request, where it is valid and not superseded, and of the
  -- default profile; where that pool is gone, to publish one made of the first of the sorted pools of
  -- the namespace and of the default profile, or, where no pool is left, to withdraw the text.
  pub data SpecStep (pipeline : Pipeline) (req : Request) (w : W) (before after : View)
      : Type 0 where
    stay : Stays before after → SpecStep pipeline req w before after
    publish :
        (found pool : Pool) (w' : W) (pools : List Pool) (profile : Option Profile) (text : String)
        → client.get_pool w req.namespace req.name ≡ fetched found
        → ensure_initial_rv client.patch_pool found w ≡ (ok pool, w')
        → validate_pool p (some pool) ≡ ok tt
        → client.list_pools w' pool.namespace ≡ ok pools
        → (ltb 1 (select_active sorter pools).count
            && not (pool.name == (select_active sorter pools).name))
          ≡ false
        → default_cache_profile client w' pool.namespace ≡ ok profile
        → run_pipeline pipeline pool profile ≡ ok text
        → Sets env (operator_namespace env.pod_namespace pool.namespace) (some text) before after
        → SpecStep pipeline req w before after
    take_over :
        (pools rest : List Pool) (pool : Pool) (profile : Option Profile) (text : String)
        → client.get_pool w req.namespace req.name ≡ absent
        → client.list_pools w req.namespace ≡ ok pools
        → sorter.sort pool_less pools ≡ pool ∷ rest
        → default_cache_profile client w req.namespace ≡ ok profile
        → run_pipeline pipeline pool profile ≡ ok text
        → Sets env (operator_namespace env.pod_namespace req.namespace) (some text) before after
        → SpecStep pipeline req w before after
    withdraw :
        client.get_pool w req.namespace req.name ≡ absent
        → client.list_pools w req.namespace ≡ ok []
        → Sets env (operator_namespace env.pod_namespace req.namespace) none before after
        → SpecStep pipeline req w before after
