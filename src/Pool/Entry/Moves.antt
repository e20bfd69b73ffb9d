-- ===== src/Pool/Entry/Moves.antt =====
-- What a write, a removal and a call of the circuit breaker do to the entries of ConfigMaps.
use astradns_operator.Base.{
  String, ◌&&◌, ◌==◌, Option, none, some, ◌≡◌, ◌⊎◌, inl, inr, refl, sym, ◌∙◌, ap, subst, eq_iff,
  eq_refl, arith, Bool-cases, if◌then◌else◌,
}
use astradns_operator.Kube.{Fetched-cases}
use astradns_operator.Pool.Circuit.{Clock, upsert}
use astradns_operator.Pool.Circuit.Phase.{upsert-phase, holds_at, phase}
use astradns_operator.Pool.Metric.{GaugeVec}
use astradns_operator.Pool.ConfigMap.{
  remove_config_key, config_key, config_map_name, Data, set_config, unset_config, upsert_config_map,
}
use astradns_operator.Pool.ConfigMap.Entries.{
  data_of, entry, IsStore, entry-set_config, entry-unset_config,
}
use astradns_operator.Pool.ConfigMap.Limit.{IsAtomic}
use astradns_operator.Pool.Reconcile.{Client, Environment, Operator}
use astradns_operator.Pool.Reconcile.Untouched.{Same}
use astradns_operator.Pool.Entry.Spec.{Stays, Sets, view}

module _ {E W : Type 0} (client : Client E W) (store : IsStore client.config_maps)
    (atomic : IsAtomic client.config_maps) (env : Environment) where
  -- The entries stay, or the agent's one is set.
  abbrev pub Moves : String → Option String → W → W → Type 0
  Moves namespace g w w' =
      Stays (view client w) (view client w') ⊎ Sets env namespace g (view client w) (view client w')

  pub Same-Stays : (w w' : W) → Same client w' w → Stays (view client w) (view client w')
  Same-Stays w w' same n m k = ap (λ d. entry d k) (same n m)

  pub Moves-after :
      (namespace : String) (g : Option String) (w w' w'' : W)
      → Moves namespace g w w'
      → Same client w'' w'
      → Moves namespace g w w''
  Moves-after namespace g w w' w'' (inl stays) same =
      inl (λ n m k. Same-Stays w' w'' same n m k ∙ stays n m k)
  Moves-after namespace g w w' w'' (inr sets) same =
      inr (λ n m k. Same-Stays w' w'' same n m k ∙ sets n m k)

  create_or_update-Moves :
      (namespace : String) (f : Data → Data) (g : Option String) (w : W)
      → ((k : String) (d : Option Data)
          → entry (some (f (data_of d))) k ≡ (if k == config_key then g else entry d k))
      → Moves namespace g w
          (client.config_maps.create_or_update namespace
            (config_map_name env.config_map_variable)
            f
            w).1
  create_or_update-Moves namespace f g w edits =
      let name = config_map_name env.config_map_variable in
      let w' = (client.config_maps.create_or_update namespace name f w).1 in
      elim (atomic w namespace name f) [
        | inl same ↦ inl (λ n m k. elim (Bool-cases (n == namespace && m == name)) [
          | inr away ↦ ap (λ d. entry d k) (store.others w namespace name n m f away)
          | inl here ↦
              let n_at : n ≡ namespace = ground (arith, here, eq_iff n namespace) in
              let m_at : m ≡ name = ground (arith, here, eq_iff m name) in
              rw (n_at, m_at, same) refl
        ])
        | inr wrote ↦ inr (λ n m k. elim (Bool-cases (n == namespace && m == name)) [
          | inr away ↦ ground (arith, away, store.others w namespace name n m f away)
          | inl here ↦
              let n_at : n ≡ namespace = ground (arith, here, eq_iff n namespace) in
              let m_at : m ≡ name = ground (arith, here, eq_iff m name) in
              rw (n_at, m_at, eq_refl namespace, eq_refl name, wrote)
                (edits k (client.config_maps.stored w namespace name))
        ])
      ]

  pub upsert_config_map-Moves :
      (namespace text : String) (w : W)
      → Moves namespace
          (some text)
          w
          (upsert_config_map client.config_maps env.config_map_variable namespace text w).1
  unfolding upsert_config_map
  upsert_config_map-Moves namespace text w =
      create_or_update-Moves namespace (set_config text) (some text) w (entry-set_config text)

  pub remove_config_key-Moves :
      (namespace : String) (w : W)
      → Moves namespace none w
          (remove_config_key client.config_maps env.config_map_variable namespace w).1
  unfolding remove_config_key
  remove_config_key-Moves namespace w =
      let name = config_map_name env.config_map_variable in
      elim (Fetched-cases (client.config_maps.get_map w namespace name)) [
        | inl missing ↦ rw (remove_config_key, missing) (inl (λ n m k. refl))
        | inr (inl (e, failed)) ↦ rw (remove_config_key, failed) (inl (λ n m k. refl))
        | inr (inr (d, there)) ↦
            rw (remove_config_key, there)
              (create_or_update-Moves namespace unset_config none w entry-unset_config)
      ]

  pub upsert-Moves :
      (namespace text : String) (v : GaugeVec) (t : Clock) (s : Operator v client)
      → Moves namespace
          (some text)
          s.world
          (upsert
            (upsert_config_map client.config_maps env.config_map_variable namespace text)
            namespace
            t
            s.world
            s.circuit).1
  upsert-Moves namespace text v t s =
      let write = upsert_config_map client.config_maps env.config_map_variable namespace text in
      let world = (upsert-phase write namespace t s.world s.circuit).2 in
      elim (Bool-cases (holds_at t.asked (phase s.circuit namespace).deadline)) [
        | inl holds ↦
            let at : (upsert write namespace t s.world s.circuit).1 ≡ s.world =
              ground (arith, world, holds) in
            inl (λ n m k. ap (λ w. view client w n m k) at)
        | inr free ↦
            let at : (upsert write namespace t s.world s.circuit).1 ≡ (write s.world).1 =
              ground (arith, world, free) in
            subst (Moves namespace (some text) s.world) (sym at)
              (upsert_config_map-Moves namespace text s.world)
      ]
