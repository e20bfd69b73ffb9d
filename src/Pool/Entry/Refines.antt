-- ===== src/Pool/Entry/Refines.antt =====
-- Every run is a step of the machine on the entries.
use astradns_operator.Base.{
  String, Option, none, some, List, [], ◌∷◌, Result, ok, err, ◌≡◌, ◌⊎◌, inl, inr, refl, ◌∙◌, arith,
}
use astradns_operator.Platform.{Platform}
use astradns_operator.Kube.{Fetched, fetched, absent, broken, Request}
use astradns_operator.Api.{Pool, Profile}
use astradns_operator.Pool.Select.{PoolSort, pool_less}
use astradns_operator.Pool.Circuit.{Clock, upsert, UpsertError, circuit_open, write_failed}
use astradns_operator.Pool.Metric.{GaugeVec, clear_selection, record_selection}
use astradns_operator.Pool.ConfigMap.{
  RemoveError, remove_config_key, upsert_config_map, operator_namespace,
}
use astradns_operator.Pool.ConfigMap.Entries.{IsStore}
use astradns_operator.Pool.ConfigMap.Limit.{IsAtomic}
use astradns_operator.Pool.Reconcile.{
  Client, Pipeline, Environment, PipelineError, too_large, generation_failed, validation_failed,
  marshal_failed, run_pipeline, Operator, reconcile_found, report, default_cache_profile,
}
use astradns_operator.Pool.Reconcile.Untouched.{Same, KeepsConfigMaps}
use astradns_operator.Pool.Reconcile.Published.{reconcile_found-guarded}
use astradns_operator.Pool.Deletion.{
  report_upsert_left, reconcile_made_left, reconcile_fetched_left, reconcile_left, finish_removal,
  reconcile_remaining, reconcile_after_deletion,
}
use astradns_operator.Pool.Entry.{reconcile_read, reconcile}
use astradns_operator.Pool.Entry.Spec.{Stays, Sets, view, SpecStep}
use astradns_operator.Pool.Entry.Moves.{
  Moves, Same-Stays, Moves-after, upsert_config_map-Moves, remove_config_key-Moves, upsert-Moves,
}

module _ {E W : Type 0} (client : Client E W) (store : IsStore client.config_maps)
    (atomic : IsAtomic client.config_maps) (p : Platform) (sorter : PoolSort) (env : Environment)
    (v : GaugeVec) (keeps : KeepsConfigMaps client) (pipeline : Pipeline) where
  report_upsert_left-Same :
      (pool : Pool) (r : Result (UpsertError E) (Unit {0})) (s : Operator v client)
      → Same client (report_upsert_left v client sorter pipeline env pool r s).1.world s.world
  unfolding report_upsert_left report
  report_upsert_left-Same pool (ok _) s = keeps pool _ s.world
  report_upsert_left-Same pool (err (circuit_open until)) s = keeps pool _ s.world
  report_upsert_left-Same pool (err (write_failed e)) s = λ n m. refl

  -- A text that the pipeline made of the pool and the profile is written, or the entries stay.
  abbrev Publishes : Pool → Result E (Option Profile) → String → W → W → Type 0
  Publishes pool g namespace w w' =
      Stays (view client w) (view client w')
      ⊎ ((profile : Option Profile) × (text : String) × (g ≡ ok profile)
          × (run_pipeline pipeline pool profile ≡ ok text)
          × Sets env namespace (some text) (view client w) (view client w'))

  reconcile_made_left-Publishes :
      (t : Clock) (pool : Pool) (profile : Option Profile) (r : Result PipelineError String)
      (namespace : String) (s : Operator v client)
      → run_pipeline pipeline pool profile ≡ r
      → Publishes pool
          (ok profile)
          namespace
          s.world
          (reconcile_made_left v client sorter pipeline env t pool r namespace s).1.world
  unfolding reconcile_made_left report
  reconcile_made_left-Publishes t pool profile (ok text) namespace s made =
      let write = upsert_config_map client.config_maps env.config_map_variable namespace text in
      let (r, w, c) = upsert write namespace t s.world s.circuit in
      elim (Moves-after client store atomic env namespace (some text) s.world w _
        (upsert-Moves client store atomic env namespace text v t s)
        (report_upsert_left-Same pool r (record s { world = w; circuit = c }))) [
          | inl stays ↦ inl stays
          | inr sets ↦ inr (profile, text, refl, made, sets)
        ]
  reconcile_made_left-Publishes t pool profile (err too_large) namespace s made =
      inl (Same-Stays client store atomic env s.world _ (keeps pool _ s.world))
  reconcile_made_left-Publishes t pool profile (err generation_failed) namespace s made =
      inl (λ n m k. refl)
  reconcile_made_left-Publishes t pool profile (err validation_failed) namespace s made =
      inl (λ n m k. refl)
  reconcile_made_left-Publishes t pool profile (err marshal_failed) namespace s made =
      inl (λ n m k. refl)

  reconcile_fetched_left-Publishes :
      (t : Clock) (pool : Pool) (g : Result E (Option Profile)) (namespace : String)
      (s : Operator v client)
      → Publishes pool g namespace s.world
          (reconcile_fetched_left v client sorter pipeline env t pool g namespace s).1.world
  unfolding reconcile_fetched_left
  reconcile_fetched_left-Publishes t pool (ok profile) namespace s =
      reconcile_made_left-Publishes t pool profile _ namespace s refl
  reconcile_fetched_left-Publishes t pool (err e) namespace s = inl (λ n m k. refl)

  finish_removal-Moves :
      (namespace : String) (r : Result (RemoveError E) (Unit {0}) × W) (w : W)
      (s : Operator v client)
      → Moves client store atomic env namespace none w r.1
      → Moves client store atomic env namespace none w
          (finish_removal v client sorter pipeline env r s).1.world
  unfolding finish_removal
  finish_removal-Moves namespace (ok _, w') w s h = h
  finish_removal-Moves namespace (err e, w') w s h = h

  reconcile_left-SpecStep :
      (t : Clock) (req : Request) (pools sorted : List Pool) (s : Operator v client)
      → client.get_pool s.world req.namespace req.name ≡ absent
      → client.list_pools s.world req.namespace ≡ ok pools
      → sorter.sort pool_less pools ≡ sorted
      → SpecStep client p sorter env pipeline req s.world (view client s.world) (
          view client
            (reconcile_left v client sorter pipeline env t req.namespace sorted s).1.world)
  unfolding reconcile_left
  reconcile_left-SpecStep t req pools [] s gone listed ordered = SpecStep.stay (λ n m k. refl)
  reconcile_left-SpecStep t req pools (pool ∷ rest) s gone listed ordered =
      elim (reconcile_fetched_left-Publishes t pool
        (default_cache_profile client s.world req.namespace)
        (operator_namespace env.pod_namespace req.namespace)
        (record s { metric = record_selection v req.namespace pool.name _ s.metric })) [
          | inl stays ↦ SpecStep.stay stays
          | inr (profile, text, looked_up, made, sets) ↦
              SpecStep.take_over pools rest pool profile text gone listed ordered looked_up made
                sets
        ]

  reconcile_remaining-SpecStep :
      (t : Clock) (req : Request) (r : Result E (List Pool)) (s : Operator v client)
      → client.get_pool s.world req.namespace req.name ≡ absent
      → client.list_pools s.world req.namespace ≡ r
      → SpecStep client p sorter env pipeline req s.world (view client s.world) (
          view client
            (reconcile_remaining v client sorter pipeline env t req.namespace r s).1.world)
  unfolding reconcile_remaining
  reconcile_remaining-SpecStep t req (err e) s gone listed = SpecStep.stay (λ n m k. refl)
  reconcile_remaining-SpecStep t req (ok []) s gone listed =
      let namespace = operator_namespace env.pod_namespace req.namespace in
      elim (finish_removal-Moves namespace
        (remove_config_key client.config_maps env.config_map_variable namespace s.world) s.world
        (record s { metric = clear_selection v req.namespace s.metric })
        (remove_config_key-Moves client store atomic env namespace s.world)) [
          | inl stays ↦ SpecStep.stay stays
          | inr sets ↦ SpecStep.withdraw gone listed sets
        ]
  reconcile_remaining-SpecStep t req (ok (x ∷ xs)) s gone listed =
      reconcile_left-SpecStep t req (x ∷ xs) (sorter.sort pool_less (x ∷ xs)) s gone listed refl

  module _ (patched : (pool : Pool) (w : W) → Same client (client.patch_pool pool w).1 w) where
    reconcile_found-SpecStep :
        (t : Clock) (req : Request) (pool : Pool) (s : Operator v client)
        → client.get_pool s.world req.namespace req.name ≡ fetched pool
        → SpecStep client p sorter env pipeline req s.world
            (view client s.world)
            (view client (reconcile_found v client p sorter pipeline env t pool s).1.world)
    reconcile_found-SpecStep t req pool s got =
        elim (reconcile_found-guarded v client keeps p sorter pipeline env patched t pool s) [
          | inl same ↦ SpecStep.stay (Same-Stays client store atomic env s.world _ same)
          | inr (stamped, w, stamps, kept, write) ↦
              let namespace = operator_namespace env.pod_namespace stamped.namespace in
              let before = Same-Stays client store atomic env s.world w kept in
              elim (Moves-after client store atomic env namespace (some write.config_json) w _ _
                (upsert_config_map-Moves client store atomic env namespace write.config_json w)
                write.wrote) [
                  | inl stays ↦ SpecStep.stay (λ n m k. stays n m k ∙ before n m k)
                  | inr sets ↦
                      SpecStep.publish pool stamped w write.pools write.profile write.config_json
                        got stamps write.valid write.listed write.selected write.looked_up
                        write.made (λ n m k. ground (arith, sets n m k, before n m k))
                ]
        ]

    reconcile_read-SpecStep :
        (t : Clock) (req : Request) (g : Fetched E Pool) (s : Operator v client)
        → client.get_pool s.world req.namespace req.name ≡ g
        → SpecStep client p sorter env pipeline req s.world (view client s.world) (
            view client (reconcile_read v client p sorter env pipeline t req.namespace g s).1.world)
    unfolding reconcile_read reconcile_after_deletion
    reconcile_read-SpecStep t req (fetched pool) s got = reconcile_found-SpecStep t req pool s got
    reconcile_read-SpecStep t req absent s got =
        reconcile_remaining-SpecStep t req (client.list_pools s.world req.namespace) s got refl
    reconcile_read-SpecStep t req (broken e) s got = SpecStep.stay (λ n m k. refl)

    -- Under the client's documentation: every run of a configured reconciler, for whichever request and
    -- whichever of its calls fail, is one step of the machine on the entries of ConfigMaps. Nothing
    -- changes; or the agent's entry, and no other, becomes a text that the pipeline made of the default
    -- profile and of the stamped pool of the request, valid and not superseded, or, where that pool is
    -- gone, of the first of the sorted pools of the namespace; or it is removed, where that pool is gone
    -- and no pool is left.
    pub reconcile-SpecStep :
        (t : Clock) (req : Request) (s : Operator v client)
        → SpecStep client p sorter env pipeline req s.world
            (view client s.world)
            (view client (reconcile v client p sorter env (some pipeline) t req s).1.world)
    unfolding reconcile
    reconcile-SpecStep t req s =
        reconcile_read-SpecStep t req (client.get_pool s.world req.namespace req.name) s refl
