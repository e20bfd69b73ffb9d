-- ===== src/Pool/Entry/Invariant.antt =====
-- What every sequence of runs keeps of the reconciler's own state.
use astradns_operator.Base.{
  ltb, String, Option, none, some, List, [], ◌∷◌, Result, ok, err, ◌≡◌, subst, sym, arith,
  if◌then◌else◌, length,
}
use astradns_operator.Platform.{Platform}
use astradns_operator.Dict.{get}
use astradns_operator.Kube.{Fetched, fetched, absent, broken, Request}
use astradns_operator.Api.{Pool, Profile}
use astradns_operator.Pool.Select.{PoolSort, pool_less}
use astradns_operator.Pool.Circuit.{Clock, upsert}
use astradns_operator.Pool.Metric.{GaugeVec, Labels, record_selection, clear_selection}
use astradns_operator.Pool.Metric.Agreement.{
  Agrees, series, record_selection-Agrees, clear_selection-Agrees,
}
use astradns_operator.Pool.ConfigMap.{
  upsert_config_map, operator_namespace, remove_config_key, RemoveError,
}
use astradns_operator.Pool.Reconcile.{
  Client, Pipeline, Environment, PipelineError, too_large, generation_failed, validation_failed,
  marshal_failed, Operator, report,
}
use astradns_operator.Pool.Deletion.{
  reconcile_made_left, reconcile_fetched_left, reconcile_left, finish_removal, reconcile_remaining,
  reconcile_after_deletion,
}
use astradns_operator.Pool.Entry.Kept.{
  IsBounded, upsert-IsBounded, IsKept, report_upsert_left-IsKept, reconcile_found-IsKept,
}
use astradns_operator.Pool.Entry.{reconcile_read, reconcile}

module _ (v : GaugeVec) {E W : Type 0} (client : Client E W) (p : Platform) (sorter : PoolSort)
    (env : Environment) where
  -- The states that runs lead to from a state, where between two runs the cluster may be any other.
  pub data Reached (start : Operator v client) : Operator v client → Type 0 where
    here : Reached start start
    run :
        (s : Operator v client) (pipeline : Option Pipeline) (t : Clock) (req : Request)
        → Reached start s
        → Reached start (reconcile v client p sorter env pipeline t req s).1
    cluster :
        (s : Operator v client) (w : W) → Reached start s → Reached start (record s { world = w })

  reconcile_made_left-IsKept :
      (pipeline : Pipeline) (t : Clock) (pool : Pool) (r : Result PipelineError String)
      (namespace : String) (s : Operator v client)
      → IsKept v client p sorter env s
      → IsKept v client p sorter env
          (reconcile_made_left v client sorter pipeline env t pool r namespace s).1
  unfolding reconcile_made_left report
  reconcile_made_left-IsKept pipeline t pool (ok config_json) namespace s h =
      let write =
        upsert_config_map client.config_maps env.config_map_variable namespace config_json in
      let (r, w, c) = upsert write namespace t s.world s.circuit in
      report_upsert_left-IsKept v client p sorter env pipeline pool r
        (record s { world = w; circuit = c })
        (h.0, upsert-IsBounded write namespace t s.world s.circuit h.1)
  reconcile_made_left-IsKept pipeline t pool (err too_large) namespace s h = h
  reconcile_made_left-IsKept pipeline t pool (err generation_failed) namespace s h = h
  reconcile_made_left-IsKept pipeline t pool (err validation_failed) namespace s h = h
  reconcile_made_left-IsKept pipeline t pool (err marshal_failed) namespace s h = h

  reconcile_fetched_left-IsKept :
      (pipeline : Pipeline) (t : Clock) (pool : Pool) (g : Result E (Option Profile))
      (namespace : String) (s : Operator v client)
      → IsKept v client p sorter env s
      → IsKept v client p sorter env
          (reconcile_fetched_left v client sorter pipeline env t pool g namespace s).1
  unfolding reconcile_fetched_left
  reconcile_fetched_left-IsKept pipeline t pool (ok profile) namespace s h =
      reconcile_made_left-IsKept pipeline t pool _ namespace s h
  reconcile_fetched_left-IsKept pipeline t pool (err e) namespace s h = h

  reconcile_left-IsKept :
      (pipeline : Pipeline) (t : Clock) (namespace : String) (pools : List Pool)
      (s : Operator v client)
      → IsKept v client p sorter env s
      → IsKept v client p sorter env
          (reconcile_left v client sorter pipeline env t namespace pools s).1
  unfolding reconcile_left
  reconcile_left-IsKept pipeline t namespace [] s h = h
  reconcile_left-IsKept pipeline t namespace (pool ∷ pools) s h =
      let reason = if ltb 1 (length (pool ∷ pools)) then "oldest_pool" else "single_pool" in
      reconcile_fetched_left-IsKept pipeline t pool _
        (operator_namespace env.pod_namespace namespace)
        (record s { metric = record_selection v namespace pool.name reason s.metric })
        ((record_selection-Agrees v namespace pool.name reason s.metric h.0).0, h.1)

  finish_removal-IsKept :
      (pipeline : Pipeline) (r : Result (RemoveError E) (Unit {0}) × W) (s : Operator v client)
      → IsKept v client p sorter env s
      → IsKept v client p sorter env (finish_removal v client sorter pipeline env r s).1
  unfolding finish_removal
  finish_removal-IsKept pipeline (ok _, w) s h = h
  finish_removal-IsKept pipeline (err e, w) s h = h

  reconcile_remaining-IsKept :
      (pipeline : Pipeline) (t : Clock) (namespace : String) (r : Result E (List Pool))
      (s : Operator v client)
      → IsKept v client p sorter env s
      → IsKept v client p sorter env
          (reconcile_remaining v client sorter pipeline env t namespace r s).1
  unfolding reconcile_remaining
  reconcile_remaining-IsKept pipeline t namespace (err e) s h = h
  reconcile_remaining-IsKept pipeline t namespace (ok []) s h =
      finish_removal-IsKept pipeline
        (remove_config_key client.config_maps env.config_map_variable
          (operator_namespace env.pod_namespace namespace) s.world)
        (record s { metric = clear_selection v namespace s.metric })
        ((clear_selection-Agrees v namespace s.metric h.0).0, h.1)
  reconcile_remaining-IsKept pipeline t namespace (ok (pool ∷ pools)) s h =
      reconcile_left-IsKept pipeline t namespace (sorter.sort pool_less (pool ∷ pools)) s h

  reconcile_read-IsKept :
      (pipeline : Pipeline) (t : Clock) (namespace : String) (g : Fetched E Pool)
      (s : Operator v client)
      → IsKept v client p sorter env s
      → IsKept v client p sorter env
          (reconcile_read v client p sorter env pipeline t namespace g s).1
  unfolding reconcile_read reconcile_after_deletion
  reconcile_read-IsKept pipeline t namespace (fetched pool) s h =
      reconcile_found-IsKept v client p sorter env pipeline t pool s h
  reconcile_read-IsKept pipeline t namespace absent s h =
      reconcile_remaining-IsKept pipeline t namespace (client.list_pools s.world namespace) s h
  reconcile_read-IsKept pipeline t namespace (broken e) s h = h

  reconcile-IsKept :
      (pipeline : Option Pipeline) (t : Clock) (req : Request) (s : Operator v client)
      → IsKept v client p sorter env s
      → IsKept v client p sorter env (reconcile v client p sorter env pipeline t req s).1
  unfolding reconcile
  reconcile-IsKept none t req s h = h
  reconcile-IsKept (some pipeline) t req s h =
      reconcile_read-IsKept pipeline t req.namespace
        (client.get_pool s.world req.namespace req.name) s h

  Reached-IsKept :
      (start s : Operator v client)
      → Reached start s
      → IsKept v client p sorter env start
      → IsKept v client p sorter env s
  Reached-IsKept start _ here h = h
  Reached-IsKept start _ (run s pipeline t req r) h =
      reconcile-IsKept pipeline t req s (Reached-IsKept start s r h)
  Reached-IsKept start _ (cluster s w r) h = Reached-IsKept start s r h

  -- From a gauge without series and empty maps, whatever runs follow, for whichever requests and
  -- over whatever cluster at each, the gauge has the value 1 exactly where a series names the
  -- recorded selection of its namespace, and no other series, and every count of failures is below
  -- three.
  pub Reached-keeps :
      (start s : Operator v client)
      → ((l : Labels) → v.value start.metric.gauge l ≡ none)
      → start.metric.state ≡ []
      → start.circuit ≡ record { failure_counts = []; open_until = [] }
      → Reached start s
      → Agrees v s.metric × IsBounded s.circuit
  unfolding get
  Reached-keeps start s silent unselected closed r = Reached-IsKept start s r (
    λ l.
        subst (λ d. v.value start.metric.gauge l ≡ series (get d l.namespace) l) (sym unselected)
          (silent l),
    subst IsBounded (sym closed) (λ m. ground arith),
  )
