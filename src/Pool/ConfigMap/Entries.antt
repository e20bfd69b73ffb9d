-- ===== src/Pool/ConfigMap/Entries.antt =====
-- What the two functions leave under each key of each ConfigMap.
use astradns_operator.Base.{
  ℕ, ◌∙◌, Result-cases, [], String, Bool, false, ◌&&◌, ◌==◌, Option, none, some, Result, ok, err,
  ◌≡◌, refl, sym, eq_iff, eq_refl, arith, if◌then◌else◌, Bool-cases, inl, inr,
}
use astradns_operator.Kube.{absent, Fetched-cases}
use astradns_operator.Dict.{get, get-remove, get-put}
use astradns_operator.Pool.ConfigMap.{
  config_key, config_map_name, Data, ConfigMaps, set_config, unset_config, upsert_config_map,
  remove_config_key,
}
use astradns_operator.Pool.Circuit.{Circuit, Clock, upsert}
use astradns_operator.Pool.Circuit.Phase.{upsert-phase, reply, holds_at, phase}

-- The data of a ConfigMap that may be missing.
abbrev pub data_of : Option Data → Data
data_of none = none
data_of (some d) = d

-- The entry under a key of it.
abbrev pub entry : Option Data → String → Option String
entry o k = elim (data_of o) [ none ↦ none | some m ↦ get m k ]

-- What the documentation of the client says of `Get` and of `CreateOrUpdate`.
pub record IsStore {E W : Type 0} (client : ConfigMaps E W) : Type 0 where
  pub missing :
      (w : W) (namespace name : String)
      → client.get_map w namespace name ≡ absent
      → client.stored w namespace name ≡ none
  pub written :
      (w : W) (namespace name : String) (f : Data → Data)
      → (client.create_or_update namespace name f w).0 ≡ ok tt
      → client.stored (client.create_or_update namespace name f w).1 namespace name
        ≡ some (f (data_of (client.stored w namespace name)))
  pub others :
      (w : W) (namespace name n m : String) (f : Data → Data)
      → (n == namespace && m == name) ≡ false
      → client.stored (client.create_or_update namespace name f w).1 n m ≡ client.stored w n m

pub entry-set_config :
    (rendered k : String) (d : Option Data)
    → entry (some (set_config rendered (data_of d))) k
      ≡ (if k == config_key then some rendered else entry d k)
unfolding set_config get
entry-set_config rendered k none =
    ground (arith, get-put [] config_key k rendered, eq_iff config_key k, eq_iff k config_key)
entry-set_config rendered k (some none) =
    ground (arith, get-put [] config_key k rendered, eq_iff config_key k, eq_iff k config_key)
entry-set_config rendered k (some (some m)) =
    ground (arith, get-put m config_key k rendered, eq_iff config_key k, eq_iff k config_key)

pub entry-unset_config :
    (k : String) (d : Option Data)
    → entry (some (unset_config (data_of d))) k ≡ (if k == config_key then none else entry d k)
unfolding unset_config get
entry-unset_config k none = ground arith
entry-unset_config k (some none) = ground arith
entry-unset_config k (some (some m)) =
    ground (arith, get-remove m config_key k, eq_iff config_key k, eq_iff k config_key)

-- Whether a ConfigMap and a key in it are those that the agent reads.
abbrev pub is_config : String → String → String → String → String → Bool
is_config variable namespace n m k =
    n == namespace && m == config_map_name variable && k == config_key

reply-ok :
    {E : Type 0} (t : Clock) (deadline : Option ℕ) (r : Result E (Unit {0}))
    → reply t deadline r ≡ ok tt
    → (holds_at t.asked deadline ≡ false) × (r ≡ ok tt)
reply-ok t none (ok _) h = (refl, refl)
reply-ok t none (err e) h = absurd (ground arith)
reply-ok t (some deadline) (ok _) h = ground arith
reply-ok t (some deadline) (err e) h = absurd (ground arith)

module _ {E W : Type 0} (client : ConfigMaps E W) (store : IsStore client) (variable : String) where
  entry-create_or_update :
      (namespace : String) (f : Data → Data) (g : Option String) (w : W) (n m k : String)
      → (client.create_or_update namespace (config_map_name variable) f w).0 ≡ ok tt
      → ((d : Option Data)
          → entry (some (f (data_of d))) k ≡ (if k == config_key then g else entry d k))
      → entry
          (client.stored (client.create_or_update namespace (config_map_name variable) f w).1 n m)
          k
        ≡ (if is_config variable namespace n m k then g else entry (client.stored w n m) k)
  entry-create_or_update namespace f g w n m k done h =
      let name = config_map_name variable in
      elim (Bool-cases (n == namespace && m == name)) [
        | inl here ↦
            let n_here : n ≡ namespace = ground (arith, here, eq_iff n namespace) in
            let m_here : m ≡ name = ground (arith, here, eq_iff m name) in
            rw
              (
                n_here,
                m_here,
                eq_refl namespace,
                eq_refl name,
                store.written w namespace name f done,
              )
              (h (client.stored w namespace name))
        | inr away ↦ ground (arith, away, store.others w namespace name n m f away)
      ]

  entry-upsert_config_map :
      (namespace rendered : String) (w : W) (n m k : String)
      → (upsert_config_map client variable namespace rendered w).0 ≡ ok tt
      → entry (client.stored (upsert_config_map client variable namespace rendered w).1 n m) k ≡ (
          if is_config variable namespace n m k
          then some rendered
          else entry (client.stored w n m) k)
  unfolding upsert_config_map
  entry-upsert_config_map namespace rendered w n m k done =
      entry-create_or_update namespace (set_config rendered) (some rendered) w n m k done
        (entry-set_config rendered k)

  -- Where the client keeps its documentation, a call of the circuit breaker that returns no error has
  -- written the text under the agent's key of its ConfigMap, and every other entry of every ConfigMap
  -- is as it was.
  pub upsert-publishes :
      (namespace rendered : String) (t : Clock) (w : W) (c : Circuit) (n m k : String)
      → (upsert (upsert_config_map client variable namespace rendered) namespace t w c).0 ≡ ok tt
      → let w' =
          (upsert (upsert_config_map client variable namespace rendered) namespace t w c).1 in
        entry (client.stored w' n m) k ≡ (
          if is_config variable namespace n m k
          then some rendered
          else entry (client.stored w n m) k)
  upsert-publishes namespace rendered t w c n m k done =
      let write = upsert_config_map client variable namespace rendered in
      let (attempted, succeeded) =
        reply-ok t (phase c namespace).deadline (write w).0
          (sym (upsert-phase write namespace t w c).1 ∙ done) in
      let world : (upsert write namespace t w c).1 ≡ (write w).1 =
        ground (arith, upsert-phase write namespace t w c, attempted) in
      rw world (entry-upsert_config_map namespace rendered w n m k succeeded)

  -- Where the client keeps its documentation, a removal that returns no error leaves no text under
  -- the agent's key, and every other entry of every ConfigMap is as it was.
  pub remove_config_key-unpublishes :
      (namespace : String) (w : W) (n m k : String)
      → (remove_config_key client variable namespace w).0 ≡ ok tt
      → entry (client.stored (remove_config_key client variable namespace w).1 n m) k
        ≡ (if is_config variable namespace n m k then none else entry (client.stored w n m) k)
  unfolding remove_config_key
  remove_config_key-unpublishes namespace w n m k done =
      let name = config_map_name variable in
      let r = client.create_or_update namespace name unset_config w in
      elim (Fetched-cases (client.get_map w namespace name)) [
        | inl missing ↦
            let none_stored = store.missing w namespace name missing in
            elim (Bool-cases (n == namespace && m == name)) [
              | inl here ↦
                  let n_here : n ≡ namespace = ground (arith, here, eq_iff n namespace) in
                  let m_here : m ≡ name = ground (arith, here, eq_iff m name) in
                  ground (arith, missing, n_here, m_here, none_stored)
              | inr away ↦ ground (arith, missing, away)
            ]
        | inr (inl (e, failure)) ↦ absurd (ground (arith, failure))
        | inr (inr (d, there)) ↦
            let updated : r.0 ≡ ok tt = ground (arith, there, Result-cases r.0) in
            ground (
              arith,
              there,
              entry-create_or_update namespace unset_config none w n m k updated
                  (entry-unset_config k),
            )
      ]
