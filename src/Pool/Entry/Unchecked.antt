-- ===== src/Pool/Entry/Unchecked.antt =====
-- A pool that is not valid: its own run, and the run after the deletion of another.
use astradns_operator.Base.{
  String, false, true, Option, some, List, [], ◌∷◌, ◌≡◌, ok, err, sym, ◌∙◌, ap, subst, arith,
}
use mathlib.Core.List.{Perm}
use astradns_operator.Platform.{Platform}
use astradns_operator.Kube.{fetched, absent}
use astradns_operator.Api.{Pool, Profile}
use astradns_operator.Pool.Validate.{PoolError, validate_pool}
use astradns_operator.Pool.Select.{PoolSort, pool_less}
use astradns_operator.Pool.Select.Order.{IsStamped, cons_not-perm-nil}
use astradns_operator.Pool.Circuit.{Clock, upsert}
use astradns_operator.Pool.Circuit.Phase.{upsert-phase, holds_at, phase}
use astradns_operator.Pool.Metric.{GaugeVec}
use astradns_operator.Pool.ConfigMap.{operator_namespace, upsert_config_map}
use astradns_operator.Pool.ConfigMap.Entries.{IsStore, entry, upsert-publishes}
use astradns_operator.Pool.ConfigMap.Limit.{IsAtomic}
use astradns_operator.Pool.Reconcile.{
  Client, Pipeline, Environment, run_pipeline, Operator, default_cache_profile,
}
use astradns_operator.Pool.Reconcile.Untouched.{Same, KeepsConfigMaps, report-Same}
use astradns_operator.Pool.Deletion.Ready.{reconcile_after_deletion-ready}
use astradns_operator.Pool.Entry.{reconcile_read, reconcile}
use astradns_operator.Pool.Entry.Spec.{View, view, Stays, Sets, SpecStep}
use astradns_operator.Pool.Entry.Refines.{reconcile-SpecStep}
use astradns_operator.Pool.Entry.Steady.{ensure_initial_rv-IsStamped}

module _ {E W : Type 0} (client : Client E W) (store : IsStore client.config_maps)
    (atomic : IsAtomic client.config_maps) (keeps : KeepsConfigMaps client)
    (patched : (pool : Pool) (w : W) → Same client (client.patch_pool pool w).1 w) (p : Platform)
    (sorter : PoolSort) (env : Environment) (v : GaugeVec) (pipeline : Pipeline) where
  -- A step for a stamped pool that is there and not valid leaves every entry.
  refused_step :
      (pool : Pool) (e : PoolError) (w : W) (before after : View)
      → validate_pool p (some pool) ≡ err e
      → IsStamped pool
      → client.get_pool w pool.namespace pool.name ≡ fetched pool
      → SpecStep client p sorter env pipeline
          (record { namespace = pool.namespace; name = pool.name })
          w
          before
          after
      → Stays before after
  refused_step pool e w before after refused stamped got (SpecStep.stay stays) = stays
  refused_step pool e w before after refused stamped got
        (SpecStep.publish found q w' l g t read stamps valid listed alone looked_up ran sets) =
      let same : pool ≡ found = cc (sym got ∙ read) in
      let kept = ensure_initial_rv-IsStamped client.patch_pool pool w stamped in
      absurd (cc (refused, valid, stamps, kept, same))
  refused_step pool e w before after refused stamped got
        (SpecStep.take_over l rest q g t gone listed sorted looked_up ran sets) =
      absurd (cc (sym got ∙ gone))
  refused_step pool e w before after refused stamped got (SpecStep.withdraw gone listed sets) =
      absurd (cc (sym got ∙ gone))

  -- Under the client's documentation: for a stamped pool that the validation refuses and the sort puts
  -- first in its namespace, where the reads succeed, the pipeline makes a text of it and the default
  -- profile, if there is one, and the circuit breaker lets a write through that succeeds: a run for that
  -- pool leaves every entry of every ConfigMap as it was, while a run for a name of which there is no
  -- pool sets the agent's entry to that text, and no other entry.
  pub reconcile-unchecked :
      (t : Clock) (gone : String) (pool : Pool) (shown rest : List Pool) (profile : Option Profile)
      (text : String) (e : PoolError) (s : Operator v client)
      → let target = operator_namespace env.pod_namespace pool.namespace in
        validate_pool p (some pool) ≡ err e
        → IsStamped pool
        → client.get_pool s.world pool.namespace pool.name ≡ fetched pool
        → client.get_pool s.world pool.namespace gone ≡ absent
        → client.list_pools s.world pool.namespace ≡ ok shown
        → sorter.sort pool_less shown ≡ pool ∷ rest
        → default_cache_profile client s.world pool.namespace ≡ ok profile
        → run_pipeline pipeline pool profile ≡ ok text
        → holds_at t.asked (phase s.circuit target).deadline ≡ false
        → (upsert_config_map client.config_maps env.config_map_variable target text s.world).0
          ≡ ok tt
        → Stays (view client s.world) (
            view client
              (reconcile v client p sorter env
                (some pipeline)
                t
                (record { namespace = pool.namespace; name = pool.name })
                s).1.world)
          × Sets env target (some text) (view client s.world) (
              view client
                (reconcile v client p sorter env
                  (some pipeline)
                  t
                  (record { namespace = pool.namespace; name = gone })
                  s).1.world)
  unfolding reconcile reconcile_read
  reconcile-unchecked t gone pool [] rest profile text e s refused stamped got missing listed sorted
        looked_up made free wrote =
      absurd (cons_not-perm-nil (subst (λ k. Perm k []) sorted (sorter.sort-perm pool_less [])))
  reconcile-unchecked t gone pool (x ∷ xs) rest profile text e s refused stamped got missing listed
        sorted looked_up made free wrote =
      let target = operator_namespace env.pod_namespace pool.namespace in
      let write = upsert_config_map client.config_maps env.config_map_variable target text in
      let succeeded : (upsert write target t s.world s.circuit).0 ≡ ok tt =
        ground (arith, upsert-phase write target t s.world s.circuit, free, wrote) in
      let (m, ready) =
        reconcile_after_deletion-ready v client sorter pipeline env t x pool xs rest profile text s
          listed sorted looked_up made succeeded in
      let run =
        ap (λ g. reconcile_read v client p sorter env pipeline t pool.namespace g s) missing
        ∙ ready in
      (
        refused_step pool e s.world _ _ refused stamped got (
            reconcile-SpecStep client store atomic p sorter env v keeps pipeline patched t
              (record { namespace = pool.namespace; name = pool.name }) s),
        λ n k j.
            ap (λ r. view client r.1.world n k j) run
            ∙ ap (λ d. entry d j) (report-Same v client keeps pool true "Ready" _ _ n k)
            ∙ upsert-publishes client.config_maps store env.config_map_variable target text t
                s.world s.circuit n k j succeeded,
      )
