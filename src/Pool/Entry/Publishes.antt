-- ===== src/Pool/Entry/Publishes.antt =====
-- A run for the oldest pool of a namespace, and the runs after it.
use mathlib.Core.List.{Mem, Perm}
use mathlib.Core.List.Perm
use astradns_operator.Base.{
  String, true, false, inl, inr, Option, none, some, List, ◌≡◌, ok, sym, ◌∙◌, ap, subst, All,
  eq_iff, eq_refl, arith,
}
use astradns_operator.Base.Members.{All-mem, All-perm}
use astradns_operator.Platform.{Platform}
use astradns_operator.Kube.{fetched}
use astradns_operator.Api.{Pool, Profile}
use astradns_operator.Pool.Validate.Sound.{IsValidPool, validate_pool_iff}
use astradns_operator.Pool.Select.{PoolSort, select_active}
use astradns_operator.Pool.Select.Order.{
  IsStamped, IsStamped-prop, IsNoOlder, select_active-perm, select_active_of_oldest,
}
use astradns_operator.Pool.Circuit.{Clock, upsert}
use astradns_operator.Pool.Circuit.Phase.{upsert-phase, holds_at, phase}
use astradns_operator.Pool.Metric.{GaugeVec, Metric}
use astradns_operator.Pool.ConfigMap.{
  config_key, config_map_name, operator_namespace, upsert_config_map,
}
use astradns_operator.Pool.ConfigMap.Entries.{IsStore, entry, upsert-publishes}
use astradns_operator.Pool.ConfigMap.Limit.{IsAtomic}
use astradns_operator.Pool.Reconcile.{
  Client, Pipeline, Environment, run_pipeline, Operator, default_cache_profile, reconcile_found,
  report,
}
use astradns_operator.Pool.Reconcile.Ready.{IsSmooth, reconcile_found-ready}
use astradns_operator.Pool.Reconcile.Untouched.{Same, KeepsConfigMaps, report-Same}
use astradns_operator.Pool.Entry.{reconcile_read, reconcile}
use astradns_operator.Pool.Entry.Steady.{IsNamed, ensure_initial_rv-IsStamped}
use astradns_operator.Pool.Entry.Converges.{agent, Passes, Passes-settles}

module _ {E W : Type 0} (client : Client E W) (p : Platform) (sorter : PoolSort) (env : Environment)
    (v : GaugeVec) (pipeline : Pipeline) (namespace : String) (pools : List Pool)
    (profile : Option Profile) where
  -- What a run for the pool reads, and that its write is let through and succeeds.
  pub record IsServed (active : Pool) (text : String) (t : Clock) (s : Operator v client)
      : Type 0 where
    pub got : client.get_pool s.world namespace active.name ≡ fetched active
    pub here : active.namespace ≡ namespace
    pub shown : List Pool
    pub listed : client.list_pools s.world namespace ≡ ok shown
    pub all_shown : Perm shown pools
    pub looked_up : default_cache_profile client s.world namespace ≡ ok profile
    pub let_through :
        holds_at t.asked (phase s.circuit (operator_namespace env.pod_namespace namespace)).deadline
        ≡ false
    pub writes :
        (upsert_config_map client.config_maps env.config_map_variable
          (operator_namespace env.pod_namespace namespace)
          text
          s.world).0
        ≡ ok tt

  module _ (stamped : All IsStamped pools) (active : Pool) (member : Mem active pools)
      (oldest : All (λ x. IsNoOlder x active) pools) (valid : IsValidPool p active) (text : String)
      (made : run_pipeline pipeline active profile ≡ ok text) (t : Clock) (s : Operator v client)
      (served : IsServed active text t s) where
    -- The write succeeds, and the run ends with the patch of the status.
    ready_run :
        let at = operator_namespace env.pod_namespace active.namespace in
        let write = upsert_config_map client.config_maps env.config_map_variable at text in
        ((upsert write at t s.world s.circuit).0 ≡ ok tt)
        × ((m : Metric v) × (reconcile_found v client p sorter pipeline env t active s
              ≡ report v client active true "Ready"
                  (record { requeue_after = 0; error = none })
                  (record {
                    world = (upsert write at t s.world s.circuit).1;
                    circuit = (upsert write at t s.world s.circuit).2;
                    metric = m;
                  })))
    ready_run =
        let target = operator_namespace env.pod_namespace namespace in
        let write = upsert_config_map client.config_maps env.config_map_variable target text in
        let one =
          select_active-perm sorter served.shown pools
            (All-perm IsStamped-prop (Perm.symm served.all_shown) stamped) served.all_shown in
        let chosen : active.name ≡ (select_active sorter served.shown).name =
          select_active_of_oldest sorter pools active stamped member oldest
          ∙ sym (ap (λ r. r.name) one) in
        let wrote : (upsert write target t s.world s.circuit).0 ≡ ok tt = ground (
          arith,
          upsert-phase write target t s.world s.circuit,
          served.let_through,
          served.writes,
        ) in
        let succeeded : (upsert
              (upsert_config_map client.config_maps env.config_map_variable
                (operator_namespace env.pod_namespace active.namespace) text)
              (operator_namespace env.pod_namespace active.namespace) t s.world s.circuit).0
            ≡ ok tt =
          subst
            (λ m.
              (upsert
                (upsert_config_map client.config_maps env.config_map_variable
                  (operator_namespace env.pod_namespace m) text)
                (operator_namespace env.pod_namespace m) t s.world s.circuit).0
              ≡ ok tt)
            (sym served.here) wrote in
        let smooth : IsSmooth v client p sorter pipeline env t active s = record {
          stamped = active;
          w = s.world;
          stamp_patched =
              ensure_initial_rv-IsStamped client.patch_pool active s.world
                (All-mem IsStamped-prop pools stamped member);
          valid = (validate_pool_iff p active).1 valid;
          pools = served.shown;
          listed = ap (client.list_pools s.world) served.here ∙ served.listed;
          selected =
              ground (arith, chosen, eq_iff active.name (select_active sorter served.shown).name);
          profile = profile;
          looked_up = ap (default_cache_profile client s.world) served.here ∙ served.looked_up;
          config_json = text;
          made = made;
          written = succeeded;
        } in
        (succeeded, (_, reconcile_found-ready v client p sorter pipeline env t active s smooth))

    abbrev served_run : Operator v client
    served_run =
        (reconcile v client p sorter env (some pipeline) t
          (record { namespace = namespace; name = active.name }) s).1

    found_run :
        reconcile v client p sorter env
          (some pipeline)
          t
          (record { namespace = namespace; name = active.name })
          s
        ≡ reconcile_found v client p sorter pipeline env t active s
    unfolding reconcile reconcile_read
    found_run = ap (λ g. reconcile_read v client p sorter env pipeline t namespace g s) served.got

    module _ (store : IsStore client.config_maps) (atomic : IsAtomic client.config_maps)
        (keeps : KeepsConfigMaps client)
        (patched : (pool : Pool) (w : W) → Same client (client.patch_pool pool w).1 w) where
      -- What the run leaves under the agent's key.
      published_entry :
          agent client p sorter env v pipeline namespace pools profile served_run.world ≡ some text
      published_entry =
          let name = config_map_name env.config_map_variable in
          let run = found_run ∙ ready_run.1.1 in
          let at = operator_namespace env.pod_namespace active.namespace in
          let write = upsert_config_map client.config_maps env.config_map_variable at text in
          let w' = (upsert write at t s.world s.circuit).1 in
          let wrote : entry (client.config_maps.stored w' at name) config_key ≡ some text = ground (
            arith,
            upsert-publishes client.config_maps store env.config_map_variable at text t s.world
                s.circuit at name config_key ready_run.0,
            eq_refl at,
            eq_refl name,
            eq_refl config_key,
          ) in
          subst
            (λ m.
              entry
                (client.config_maps.stored served_run.world (operator_namespace env.pod_namespace m)
                  name)
                config_key
              ≡ some text)
            served.here
            (ap (λ r. entry (client.config_maps.stored r.1.world at name) config_key) run
              ∙ ap (λ d. entry d config_key)
                  (report-Same v client keeps active true "Ready" _ _ at name)
              ∙ wrote)

      -- Under the client's documentation, for stamped pools of different names, of which the oldest is
      -- valid and the pipeline makes a text of it and the default profile, if there is one: a run for that
      -- pool that is shown these pools in some order and this profile, and whose write the circuit breaker
      -- lets through and which succeeds, publishes the text and ends with the patch that marks the pool
      -- ready; and the text stays over any runs that follow for names of the namespace, each over a world
      -- that answers, where it does, with just these pools and this profile, and over changes between
      -- them that leave the agent's entry.
      pub reconcile-publishes :
          IsNamed pools
          → (agent client p sorter env v pipeline namespace pools profile served_run.world
              ≡ some text)
            × ((w' : W) × (served_run.world
                  ≡ (client.patch_status active
                      (record { is_ready = true; reason = "Ready" })
                      w').1))
            × ((later : Operator v client)
                → Passes client p sorter env v pipeline namespace pools profile served_run later
                → agent client p sorter env v pipeline namespace pools profile later.world
                  ≡ some text)
      unfolding report
      reconcile-publishes named = (
        published_entry,
        (_, ap (λ r. r.1.world) (found_run ∙ ready_run.1.1)),
        λ later passes.
            elim (Passes-settles client p sorter env v pipeline namespace pools profile store atomic
              keeps patched served_run later active text stamped named member
              (select_active_of_oldest sorter pools active stamped member oldest) made passes) [
                | inl still ↦ still ∙ published_entry
                | inr new ↦ new
              ],
      )
