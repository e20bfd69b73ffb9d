-- ===== src/Pool/ConfigMap/Limit.antt =====
-- The size of the text under the agent's key, and what a write and a removal make of it.
use Prim.Native.String.{len}
use astradns_operator.Base.{
  ◌+◌, ◌*◌, ◌^◌, ◌≤◌, String, ◌==◌, ◌&&◌, Option, some, ◌≡◌, ◌⊎◌, sym, ◌∙◌, ap, subst, eq_iff, inl,
  inr, arith, Bool-cases,
}
use astradns_operator.Kube.{Fetched-cases}
use astradns_operator.Pool.ConfigMap.{
  Data, ConfigMaps, config_key, config_map_name, set_config, unset_config, upsert_config_map,
  remove_config_key,
}
use astradns_operator.Pool.ConfigMap.Entries.{
  data_of, entry, IsStore, entry-set_config, entry-unset_config,
}

-- With its key the text is within the limit: a mebibyte less four kibibytes.
abbrev pub IsSmall : String → Type 0
IsSmall text = len text + len config_key + 4 * 2 ^ 10 ≤ 2 ^ 20

-- `CreateOrUpdate` of one object is one write of it, also where it returns an error.
abbrev pub IsAtomic : {E W : Type 0} → ConfigMaps E W → Type 0
IsAtomic {W = W} client =
    (w : W) (namespace name : String) (f : Data → Data)
    → let w' = (client.create_or_update namespace name f w).1 in
      (client.stored w' namespace name ≡ client.stored w namespace name)
      ⊎ (client.stored w' namespace name ≡ some (f (data_of (client.stored w namespace name))))

module _ {E W : Type 0} (client : ConfigMaps E W) (store : IsStore client)
    (atomic : IsAtomic client) where
  -- Every text under the agent's key of a ConfigMap is within the limit.
  abbrev pub Fits : W → Type 0
  Fits w = (n m text : String) → entry (client.stored w n m) config_key ≡ some text → IsSmall text

  create_or_update-Fits :
      (namespace name : String) (f : Data → Data) (w : W)
      → ((d : Option Data) (text : String)
          → entry (some (f (data_of d))) config_key ≡ some text
          → IsSmall text)
      → Fits w
      → Fits (client.create_or_update namespace name f w).1
  create_or_update-Fits namespace name f w small h n m text there =
      elim (Bool-cases (n == namespace && m == name)) [
        | inr away ↦
            h n m text (
              ap (λ d. entry d config_key) (sym (store.others w namespace name n m f away)) ∙ there)
        | inl here ↦
            let n_here : n ≡ namespace = ground (arith, here, eq_iff n namespace) in
            let m_here : m ≡ name = ground (arith, here, eq_iff m name) in
            let w' = (client.create_or_update namespace name f w).1 in
            let at : entry (client.stored w' namespace name) config_key ≡ some text =
              ap (λ d. entry d config_key)
                (sym
                  (ap (λ x. client.stored w' x m) n_here ∙ ap (client.stored w' namespace) m_here))
              ∙ there in
            elim (atomic w namespace name f) [
              | inl same ↦ h namespace name text (ap (λ d. entry d config_key) (sym same) ∙ at)
              | inr wrote ↦
                  small (client.stored w namespace name) text
                    (ap (λ d. entry d config_key) (sym wrote) ∙ at)
            ]
      ]

  pub upsert_config_map-Fits :
      (variable namespace rendered : String) (w : W)
      → IsSmall rendered
      → Fits w
      → Fits (upsert_config_map client variable namespace rendered w).1
  unfolding upsert_config_map
  upsert_config_map-Fits variable namespace rendered w small =
      create_or_update-Fits namespace (config_map_name variable) (set_config rendered) w
        (λ d text there.
          let same : rendered ≡ text = cc (entry-set_config rendered config_key d, there) in
          subst IsSmall same small)

  pub remove_config_key-Fits :
      (variable namespace : String) (w : W)
      → Fits w
      → Fits (remove_config_key client variable namespace w).1
  unfolding remove_config_key
  remove_config_key-Fits variable namespace w h =
      let name = config_map_name variable in
      elim (Fetched-cases (client.get_map w namespace name)) [
        | inl missing ↦ rw (remove_config_key, missing) h
        | inr (inl (e, failed)) ↦ rw (remove_config_key, failed) h
        | inr (inr (d, there)) ↦
            rw (remove_config_key, there)
              (create_or_update-Fits namespace name unset_config w
                (λ d text there. absurd (ground (arith, entry-unset_config config_key d, there))) h)
      ]
