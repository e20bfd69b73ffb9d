-- ===== src/Pool/Entry/Frame.antt =====
-- What of the ConfigMaps no run touches.
use astradns_operator.Base.{
  String, false, ◌&&◌, ◌==◌, Option, none, some, ◌≡◌, ◌≢◌, ◌⊎◌, inl, inr, sym, ◌∙◌, ap, eq_iff,
  arith, Bool-cases, if◌then◌else◌,
}
use astradns_operator.Text.{trim_space}
use astradns_operator.Platform.{Platform}
use astradns_operator.Kube.{Request, Fetched-cases}
use astradns_operator.Api.{Pool}
use astradns_operator.Pool.Select.{PoolSort}
use astradns_operator.Pool.Circuit.{Clock}
use astradns_operator.Pool.Metric.{GaugeVec}
use astradns_operator.Pool.ConfigMap.{
  config_key, config_map_name, Data, set_config, unset_config, operator_namespace,
  upsert_config_map, remove_config_key,
}
use astradns_operator.Pool.ConfigMap.Entries.{
  data_of, entry, IsStore, entry-set_config, entry-unset_config,
}
use astradns_operator.Pool.ConfigMap.Limit.{IsAtomic}
use astradns_operator.Pool.Reconcile.{Client, Pipeline, Environment, Operator}
use astradns_operator.Pool.Reconcile.Untouched.{Same, KeepsConfigMaps}
use astradns_operator.Pool.Entry.{reconcile}
use astradns_operator.Pool.Entry.Preserved.{IsPreserved, reconcile_keeps}

-- An entry that is not the agent's: another ConfigMap or another key, or, where the operator's own
-- namespace is set, any of another namespace.
abbrev pub IsElsewhere : Environment → String → String → String → Type 0
IsElsewhere env n m k =
    ((m == config_map_name env.config_map_variable && k == config_key) ≡ false)
    ⊎ ((trim_space env.pod_namespace ≢ "") × (n ≢ trim_space env.pod_namespace))

operator_namespace_set :
    (variable fallback : String)
    → trim_space variable ≢ ""
    → operator_namespace variable fallback ≡ trim_space variable
unfolding operator_namespace
operator_namespace_set variable fallback h = ground (arith, h, eq_iff (trim_space variable) "")

-- Where the agent's ConfigMap is written, an entry elsewhere is of another key.
elsewhere_key :
    (env : Environment) (fallback n m k : String)
    → IsElsewhere env n m k
    → n ≡ operator_namespace env.pod_namespace fallback
    → m ≡ config_map_name env.config_map_variable
    → (k == config_key) ≡ false
elsewhere_key env fallback n m k (inl other) n_at m_at =
    ground (arith, other, m_at, eq_iff m (config_map_name env.config_map_variable))
elsewhere_key env fallback n m k (inr (set, away)) n_at m_at =
    absurd (away (n_at ∙ operator_namespace_set env.pod_namespace fallback set))

module _ {E W : Type 0} (client : Client E W) (store : IsStore client.config_maps)
    (atomic : IsAtomic client.config_maps) (env : Environment) (n m k : String) (e : Option String)
    (away : IsElsewhere env n m k) where
  abbrev Held : W → Type 0
  Held w = entry (client.config_maps.stored w n m) k ≡ e

  create_or_update-Held :
      (fallback : String) (f : Data → Data) (g : Option String) (w : W)
      → ((d : Option Data)
          → entry (some (f (data_of d))) k ≡ (if k == config_key then g else entry d k))
      → Held w
      → Held
          (client.config_maps.create_or_update
            (operator_namespace env.pod_namespace fallback)
            (config_map_name env.config_map_variable)
            f
            w).1
  create_or_update-Held fallback f g w edits h =
      let namespace = operator_namespace env.pod_namespace fallback in
      let name = config_map_name env.config_map_variable in
      let w' = (client.config_maps.create_or_update namespace name f w).1 in
      elim (Bool-cases (n == namespace && m == name)) [
        | inr other ↦ ap (λ d. entry d k) (store.others w namespace name n m f other) ∙ h
        | inl here ↦
            let n_at : n ≡ namespace = ground (arith, here, eq_iff n namespace) in
            let m_at : m ≡ name = ground (arith, here, eq_iff m name) in
            let kept = elsewhere_key env fallback n m k away n_at m_at in
            let before : client.config_maps.stored w n m
                ≡ client.config_maps.stored w namespace name =
              ap (λ x. client.config_maps.stored w x m) n_at
              ∙ ap (client.config_maps.stored w namespace) m_at in
            let after : client.config_maps.stored w' n m
                ≡ client.config_maps.stored w' namespace name =
              ap (λ x. client.config_maps.stored w' x m) n_at
              ∙ ap (client.config_maps.stored w' namespace) m_at in
            elim (atomic w namespace name f) [
              | inl same ↦ ap (λ d. entry d k) (after ∙ same ∙ sym before) ∙ h
              | inr wrote ↦
                  ap (λ d. entry d k) (after ∙ wrote)
                  ∙ edits (client.config_maps.stored w namespace name)
                  ∙ ap (λ b. if b then g else entry (client.config_maps.stored w namespace name) k)
                      kept
                  ∙ ap (λ d. entry d k) (sym before)
                  ∙ h
            ]
      ]

  remove_config_key-Held :
      (fallback : String) (w : W)
      → Held w
      → Held
          (remove_config_key client.config_maps env.config_map_variable
            (operator_namespace env.pod_namespace fallback)
            w).1
  unfolding remove_config_key
  remove_config_key-Held fallback w h =
      let namespace = operator_namespace env.pod_namespace fallback in
      let name = config_map_name env.config_map_variable in
      elim (Fetched-cases (client.config_maps.get_map w namespace name)) [
        | inl missing ↦ rw (remove_config_key, missing) h
        | inr (inl (e, failed)) ↦ rw (remove_config_key, failed) h
        | inr (inr (d, there)) ↦
            rw (remove_config_key, there)
              (create_or_update-Held fallback unset_config none w (entry-unset_config k) h)
      ]

  Held-IsPreserved : IsPreserved client env Held
  unfolding upsert_config_map
  Held-IsPreserved = record {
    same = λ w w' same h. ap (λ d. entry d k) (same n m) ∙ h;
    published = λ namespace text w small h.
        create_or_update-Held namespace (set_config text) (some text) w (entry-set_config text k) h;
    withdrawn = λ namespace w h. remove_config_key-Held namespace w h;
  }

  -- Under the client's documentation: no run, for whichever request, wherever it stops and whatever it
  -- returns, changes an entry of a ConfigMap that is not the agent's, of another key of it, or, where
  -- POD_NAMESPACE is set, of another namespace.
  pub reconcile-frames :
      (v : GaugeVec) (keeps : KeepsConfigMaps client)
      → ((pool : Pool) (w : W) → Same client (client.patch_pool pool w).1 w)
      → (p : Platform) (sorter : PoolSort) (pipeline : Option Pipeline) (t : Clock) (req : Request)
        (s : Operator v client)
      → entry (client.config_maps.stored s.world n m) k ≡ e
      → entry
          (client.config_maps.stored (reconcile v client p sorter env pipeline t req s).1.world n m)
          k
        ≡ e
  reconcile-frames v keeps patched p sorter pipeline t req s h =
      reconcile_keeps v client keeps p sorter env Held Held-IsPreserved patched pipeline t req s h
