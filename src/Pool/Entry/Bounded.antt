-- ===== src/Pool/Entry/Bounded.antt =====
-- The size of what the ConfigMaps hold.
use Prim.Native.String.{len}
use astradns_operator.Base.{◌+◌, ◌*◌, ◌^◌, ◌≤◌, String, Option, some, ◌≡◌, sym, ◌∙◌, ap}
use astradns_operator.Platform.{Platform}
use astradns_operator.Kube.{Request}
use astradns_operator.Api.{Pool}
use astradns_operator.Pool.Select.{PoolSort}
use astradns_operator.Pool.Circuit.{Clock}
use astradns_operator.Pool.Metric.{GaugeVec}
use astradns_operator.Pool.ConfigMap.{config_key, operator_namespace}
use astradns_operator.Pool.ConfigMap.Entries.{entry, IsStore}
use astradns_operator.Pool.ConfigMap.Limit.{
  IsAtomic, Fits, upsert_config_map-Fits, remove_config_key-Fits,
}
use astradns_operator.Pool.Reconcile.{Client, Pipeline, Environment, Operator}
use astradns_operator.Pool.Reconcile.Untouched.{Same, KeepsConfigMaps}
use astradns_operator.Pool.Entry.{reconcile}
use astradns_operator.Pool.Entry.Preserved.{IsPreserved, reconcile_keeps}

module _ (v : GaugeVec) {E W : Type 0} (client : Client E W) (store : IsStore client.config_maps)
    (atomic : IsAtomic client.config_maps) (keeps : KeepsConfigMaps client) (p : Platform)
    (sorter : PoolSort) (env : Environment) where
  Fits-IsPreserved : IsPreserved client env (Fits client.config_maps store atomic)
  Fits-IsPreserved = record {
    same = λ w w' same h n m text there.
        h n m text (ap (λ d. entry d config_key) (sym (same n m)) ∙ there);
    published = λ namespace text w small h.
        upsert_config_map-Fits client.config_maps store atomic env.config_map_variable
          (operator_namespace env.pod_namespace namespace) text w small h;
    withdrawn = λ namespace w h.
        remove_config_key-Fits client.config_maps store atomic env.config_map_variable
          (operator_namespace env.pod_namespace namespace) w h;
  }

  -- Under the client's documentation: where every text under the agent's key of a ConfigMap is with
  -- its key within the limit of a mebibyte less four kibibytes, so it is after any run, for whichever
  -- request and whatever it returns.
  pub reconcile-Fits :
      ((pool : Pool) (w : W) → Same client (client.patch_pool pool w).1 w)
      → (pipeline : Option Pipeline) (t : Clock) (req : Request) (s : Operator v client)
      → ((n m text : String)
          → entry (client.config_maps.stored s.world n m) config_key ≡ some text
          → len text + len config_key + 4 * 2 ^ 10 ≤ 2 ^ 20)
      → (n m text : String)
      → entry
          (client.config_maps.stored (reconcile v client p sorter env pipeline t req s).1.world n m)
          config_key
        ≡ some text
      → len text + len config_key + 4 * 2 ^ 10 ≤ 2 ^ 20
  reconcile-Fits patched pipeline t req s h =
      reconcile_keeps v client keeps p sorter env (Fits client.config_maps store atomic)
        Fits-IsPreserved patched pipeline t req s h
