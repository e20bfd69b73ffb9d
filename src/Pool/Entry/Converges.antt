-- ===== src/Pool/Entry/Converges.antt =====
-- Runs one after the other while the pools of a namespace and its profile stay as they are.
use mathlib.Core.List.{Mem}
use astradns_operator.Base.{
  String, inl, inr, Option, some, List, ◌≡◌, ◌⊎◌, ok, refl, ◌∙◌, All, eq_refl, arith,
}
use astradns_operator.Platform.{Platform}
use astradns_operator.Api.{Pool, Profile}
use astradns_operator.Pool.Select.{PoolSort, select_active}
use astradns_operator.Pool.Select.Order.{IsStamped}
use astradns_operator.Pool.Circuit.{Clock}
use astradns_operator.Pool.Metric.{GaugeVec}
use astradns_operator.Pool.ConfigMap.{config_key, config_map_name, operator_namespace}
use astradns_operator.Pool.ConfigMap.Entries.{IsStore}
use astradns_operator.Pool.ConfigMap.Limit.{IsAtomic}
use astradns_operator.Pool.Reconcile.{Client, Pipeline, Environment, run_pipeline, Operator}
use astradns_operator.Pool.Reconcile.Untouched.{Same, KeepsConfigMaps}
use astradns_operator.Pool.Entry.{reconcile}
use astradns_operator.Pool.Entry.Spec.{view}
use astradns_operator.Pool.Entry.Refines.{reconcile-SpecStep}
use astradns_operator.Pool.Entry.Steady.{IsSteady, IsNamed, SpecStep-settles}

module _ {E W : Type 0} (client : Client E W) (p : Platform) (sorter : PoolSort) (env : Environment)
    (v : GaugeVec) (pipeline : Pipeline) (namespace : String) (pools : List Pool)
    (profile : Option Profile) where
  -- The text that the agent reads.
  abbrev pub agent : W → Option String
  agent w =
      view client w (operator_namespace env.pod_namespace namespace)
        (config_map_name env.config_map_variable) config_key

  -- Runs for any names of the namespace, each over a world with the same pools and profile; between
  -- two runs the cluster may change in all but the agent's entry.
  pub data Passes (start : Operator v client) : Operator v client → Type 0 where
    here : Passes start start
    run :
        (s : Operator v client) (t : Clock) (n : String)
        → IsSteady client p sorter pipeline env namespace pools profile s.world
        → Passes start s
        → Passes start
            (reconcile v client p sorter env
              (some pipeline)
              t
              (record { namespace = namespace; name = n })
              s).1
    cluster :
        (s : Operator v client) (w : W)
        → agent w ≡ agent s.world
        → Passes start s
        → Passes start (record s { world = w })

  module _ (store : IsStore client.config_maps) (atomic : IsAtomic client.config_maps)
      (keeps : KeepsConfigMaps client)
      (patched : (pool : Pool) (w : W) → Same client (client.patch_pool pool w).1 w) where
    -- Under the client's documentation, for one pipeline and stamped pools of different names, of which
    -- the selected one has a text: after runs for any names of the namespace, each over a world that
    -- answers, where it does, with just these pools in some order and the one profile, and with changes
    -- between the runs that leave the agent's entry, the agent's text is that text or still the one of
    -- the start, whichever calls failed.
    pub Passes-settles :
        (start s : Operator v client) (active : Pool) (text : String)
        → All IsStamped pools
        → IsNamed pools
        → Mem active pools
        → active.name ≡ (select_active sorter pools).name
        → run_pipeline pipeline active profile ≡ ok text
        → Passes start s
        → (agent s.world ≡ agent start.world) ⊎ (agent s.world ≡ some text)
    Passes-settles start _ active text stamped named member selected made here = inl refl
    Passes-settles start _ active text stamped named member selected made (run s t n steady r) =
        let before = Passes-settles start s active text stamped named member selected made r in
        let w' =
          (reconcile v client p sorter env (some pipeline) t
            (record { namespace = namespace; name = n }) s).1.world in
        let step =
          reconcile-SpecStep client store atomic p sorter env v keeps pipeline patched t
            (record { namespace = namespace; name = n }) s in
        let target = operator_namespace env.pod_namespace namespace in
        let name = config_map_name env.config_map_variable in
        elim (SpecStep-settles client p sorter pipeline env namespace pools profile stamped named
          active member selected text made n s.world (view client s.world) (view client w') steady
          step) [
            | inl stays ↦ elim before [
              | inl old ↦ inl (stays target name config_key ∙ old)
              | inr new ↦ inr (stays target name config_key ∙ new)
            ]
            | inr sets ↦ inr (
                ground (
                  arith,
                  sets target name config_key,
                  eq_refl target,
                  eq_refl name,
                  eq_refl config_key,
                ))
          ]
    Passes-settles start _ active text stamped named member selected made (cluster s w same r) =
        elim (Passes-settles start s active text stamped named member selected made r) [
          | inl old ↦ inl (same ∙ old)
          | inr new ↦ inr (same ∙ new)
        ]
