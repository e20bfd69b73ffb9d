-- ===== src/Pool/Entry/Preserved.antt =====
-- What a run keeps of the ConfigMaps: all that its writes and removals keep.
use astradns_operator.Base.{
  String, Option, none, some, List, [], ◌∷◌, Result, ok, err, ◌≡◌, refl, sym, subst, inl, inr,
  arith, Bool-cases,
}
use astradns_operator.Platform.{Platform}
use astradns_operator.Kube.{Fetched, fetched, absent, broken, Request}
use astradns_operator.Api.{Pool, Profile}
use astradns_operator.Pool.Select.{PoolSort, pool_less}
use astradns_operator.Pool.Circuit.{Clock, upsert, UpsertError, circuit_open, write_failed}
use astradns_operator.Pool.Circuit.Phase.{upsert-phase, holds_at, phase}
use astradns_operator.Pool.Metric.{GaugeVec, clear_selection, record_selection}
use astradns_operator.Pool.ConfigMap.{
  RemoveError, remove_config_key, upsert_config_map, operator_namespace,
}
use astradns_operator.Pool.ConfigMap.Limit.{IsSmall}
use astradns_operator.Pool.Reconcile.{
  Client, Pipeline, Environment, PipelineError, too_large, generation_failed, validation_failed,
  marshal_failed, run_pipeline, Operator, reconcile_found, report,
}
use astradns_operator.Pool.Reconcile.Steps.{run_pipeline-ok}
use astradns_operator.Pool.Reconcile.Untouched.{Same, KeepsConfigMaps}
use astradns_operator.Pool.Reconcile.Published.{reconcile_found-guarded}
use astradns_operator.Pool.Deletion.{
  report_upsert_left, reconcile_made_left, reconcile_fetched_left, reconcile_left, finish_removal,
  reconcile_remaining, reconcile_after_deletion,
}
use astradns_operator.Pool.Entry.{reconcile_read, reconcile}

-- A property of the cluster that depends on the ConfigMaps only, and that neither a write of a text
-- within the limit nor a removal changes, in whichever namespace the agent's ConfigMap is.
pub record IsPreserved {E W : Type 0} (client : Client E W) (env : Environment) (P : W → Type 0)
    : Type 0 where
  pub same : (w w' : W) → Same client w' w → P w → P w'
  pub published :
      (namespace text : String) (w : W)
      → IsSmall text
      → P w
      → P
          (upsert_config_map client.config_maps env.config_map_variable
            (operator_namespace env.pod_namespace namespace)
            text
            w).1
  pub withdrawn :
      (namespace : String) (w : W)
      → P w
      → P
          (remove_config_key client.config_maps env.config_map_variable
            (operator_namespace env.pod_namespace namespace)
            w).1

run_pipeline-IsSmall :
    (pipeline : Pipeline) (pool : Pool) (profile : Option Profile) (config_json : String)
    → run_pipeline pipeline pool profile ≡ ok config_json
    → IsSmall config_json
run_pipeline-IsSmall pipeline pool profile config_json h =
    let (_, _, _, _, _, small) = run_pipeline-ok pipeline pool profile config_json h in small

module _ (v : GaugeVec) {E W : Type 0} (client : Client E W) (keeps : KeepsConfigMaps client)
    (p : Platform) (sorter : PoolSort) (env : Environment) (P : W → Type 0)
    (inv : IsPreserved client env P) where
  report_upsert_left_keeps :
      (pipeline : Pipeline) (pool : Pool) (r : Result (UpsertError E) (Unit {0}))
      (s : Operator v client)
      → P s.world
      → P (report_upsert_left v client sorter pipeline env pool r s).1.world
  unfolding report_upsert_left report
  report_upsert_left_keeps pipeline pool (ok _) s h = inv.same s.world _ (keeps pool _ s.world) h
  report_upsert_left_keeps pipeline pool (err (circuit_open until)) s h =
      inv.same s.world _ (keeps pool _ s.world) h
  report_upsert_left_keeps pipeline pool (err (write_failed e)) s h = h

  upsert_keeps :
      (ns text : String) (t : Clock) (s : Operator v client)
      → IsSmall text
      → P s.world
      → P
          (upsert
            (upsert_config_map client.config_maps env.config_map_variable
              (operator_namespace env.pod_namespace ns)
              text)
            (operator_namespace env.pod_namespace ns)
            t
            s.world
            s.circuit).1
  upsert_keeps ns text t s small h =
      let namespace = operator_namespace env.pod_namespace ns in
      let write = upsert_config_map client.config_maps env.config_map_variable namespace text in
      let world = (upsert-phase write namespace t s.world s.circuit).2 in
      elim (Bool-cases (holds_at t.asked (phase s.circuit namespace).deadline)) [
        | inl holds ↦
            let at : (upsert write namespace t s.world s.circuit).1 ≡ s.world =
              ground (arith, world, holds) in
            subst P (sym at) h
        | inr free ↦
            let at : (upsert write namespace t s.world s.circuit).1 ≡ (write s.world).1 =
              ground (arith, world, free) in
            subst P (sym at) (inv.published ns text s.world small h)
      ]

  reconcile_made_left_keeps :
      (pipeline : Pipeline) (t : Clock) (pool : Pool) (profile : Option Profile)
      (r : Result PipelineError String) (ns : String) (s : Operator v client)
      → run_pipeline pipeline pool profile ≡ r
      → P s.world
      → P
          (reconcile_made_left v client sorter pipeline env t pool r
            (operator_namespace env.pod_namespace ns)
            s).1.world
  unfolding reconcile_made_left report
  reconcile_made_left_keeps pipeline t pool profile (ok text) ns s made h =
      let namespace = operator_namespace env.pod_namespace ns in
      let write = upsert_config_map client.config_maps env.config_map_variable namespace text in
      let (r, w, c) = upsert write namespace t s.world s.circuit in
      report_upsert_left_keeps pipeline pool r (record s { world = w; circuit = c })
        (upsert_keeps ns text t s (run_pipeline-IsSmall pipeline pool profile text made) h)
  reconcile_made_left_keeps pipeline t pool profile (err too_large) ns s made h =
      inv.same s.world _ (keeps pool _ s.world) h
  reconcile_made_left_keeps pipeline t pool profile (err generation_failed) ns s made h = h
  reconcile_made_left_keeps pipeline t pool profile (err validation_failed) ns s made h = h
  reconcile_made_left_keeps pipeline t pool profile (err marshal_failed) ns s made h = h

  reconcile_fetched_left_keeps :
      (pipeline : Pipeline) (t : Clock) (pool : Pool) (g : Result E (Option Profile)) (ns : String)
      (s : Operator v client)
      → P s.world
      → P
          (reconcile_fetched_left v client sorter pipeline env t pool g
            (operator_namespace env.pod_namespace ns)
            s).1.world
  unfolding reconcile_fetched_left
  reconcile_fetched_left_keeps pipeline t pool (ok profile) ns s h =
      reconcile_made_left_keeps pipeline t pool profile _ ns s refl h
  reconcile_fetched_left_keeps pipeline t pool (err e) ns s h = h

  reconcile_left_keeps :
      (pipeline : Pipeline) (t : Clock) (namespace : String) (pools : List Pool)
      (s : Operator v client)
      → P s.world
      → P (reconcile_left v client sorter pipeline env t namespace pools s).1.world
  unfolding reconcile_left
  reconcile_left_keeps pipeline t namespace [] s h = h
  reconcile_left_keeps pipeline t namespace (pool ∷ pools) s h =
      reconcile_fetched_left_keeps pipeline t pool _ namespace
        (record s { metric = record_selection v namespace pool.name _ s.metric }) h

  finish_removal_keeps :
      (pipeline : Pipeline) (r : Result (RemoveError E) (Unit {0}) × W) (s : Operator v client)
      → P r.1
      → P (finish_removal v client sorter pipeline env r s).1.world
  unfolding finish_removal
  finish_removal_keeps pipeline (ok _, w) s h = h
  finish_removal_keeps pipeline (err e, w) s h = h

  reconcile_remaining_keeps :
      (pipeline : Pipeline) (t : Clock) (namespace : String) (r : Result E (List Pool))
      (s : Operator v client)
      → P s.world
      → P (reconcile_remaining v client sorter pipeline env t namespace r s).1.world
  unfolding reconcile_remaining
  reconcile_remaining_keeps pipeline t namespace (err e) s h = h
  reconcile_remaining_keeps pipeline t namespace (ok []) s h =
      finish_removal_keeps pipeline _ (record s { metric = clear_selection v namespace s.metric })
        (inv.withdrawn namespace s.world h)
  reconcile_remaining_keeps pipeline t namespace (ok (pool ∷ pools)) s h =
      reconcile_left_keeps pipeline t namespace (sorter.sort pool_less (pool ∷ pools)) s h

  reconcile_found_keeps :
      ((pool : Pool) (w : W) → Same client (client.patch_pool pool w).1 w)
      → (pipeline : Pipeline) (t : Clock) (pool : Pool) (s : Operator v client) → P s.world
      → P (reconcile_found v client p sorter pipeline env t pool s).1.world
  reconcile_found_keeps patched pipeline t pool s h =
      elim (reconcile_found-guarded v client keeps p sorter pipeline env patched t pool s) [
        | inl same ↦ inv.same s.world _ same h
        | inr (stamped, w, _, kept, write) ↦ inv.same _ _ write.wrote (
            inv.published stamped.namespace write.config_json w
              (run_pipeline-IsSmall pipeline stamped write.profile write.config_json write.made)
              (inv.same s.world w kept h))
      ]

  reconcile_read_keeps :
      ((pool : Pool) (w : W) → Same client (client.patch_pool pool w).1 w)
      → (pipeline : Pipeline) (t : Clock) (namespace : String) (g : Fetched E Pool)
        (s : Operator v client)
      → P s.world
      → P (reconcile_read v client p sorter env pipeline t namespace g s).1.world
  unfolding reconcile_read reconcile_after_deletion
  reconcile_read_keeps patched pipeline t namespace (fetched pool) s h =
      reconcile_found_keeps patched pipeline t pool s h
  reconcile_read_keeps patched pipeline t namespace absent s h =
      reconcile_remaining_keeps pipeline t namespace (client.list_pools s.world namespace) s h
  reconcile_read_keeps patched pipeline t namespace (broken e) s h = h

  -- What is preserved holds after any run, for whichever request and whatever it returns.
  pub reconcile_keeps :
      ((pool : Pool) (w : W) → Same client (client.patch_pool pool w).1 w)
      → (pipeline : Option Pipeline) (t : Clock) (req : Request) (s : Operator v client) → P s.world
      → P (reconcile v client p sorter env pipeline t req s).1.world
  unfolding reconcile
  reconcile_keeps patched none t req s h = h
  reconcile_keeps patched (some pipeline) t req s h =
      reconcile_read_keeps patched pipeline t req.namespace
        (client.get_pool s.world req.namespace req.name) s h
