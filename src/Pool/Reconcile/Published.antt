-- ===== src/Pool/Reconcile/Published.antt =====
-- What a run may write to the ConfigMap of the agent.
use astradns_operator.Base.{
  String, false, not, ◌&&◌, ◌==◌, Option, none, some, List, ltb, Result, ok, err, Bool-cases, ◌≡◌,
  refl, ◌∙◌, ap, ◌⊎◌, inl, inr,
}
use astradns_operator.Platform.{Platform}
use astradns_operator.Api.{Pool, Profile}
use astradns_operator.Pool.Validate.{PoolError, validate_pool}
use astradns_operator.Pool.Select.{PoolSort, select_active}
use astradns_operator.Pool.Circuit.{Clock}
use astradns_operator.Pool.Metric.{GaugeVec, record_selection}
use astradns_operator.Pool.Stamp.{ensure_initial_rv}
use astradns_operator.Pool.Reconcile.{
  default_cache_profile, Client, Pipeline, Environment, run_pipeline, Operator, report,
  reconcile_with, reconcile_made, reconcile_fetched, reconcile_listed, reconcile_checked,
  reconcile_stamped, reconcile_found, PipelineError,
}
use astradns_operator.Pool.Reconcile.Untouched.{
  Same, KeepsConfigMaps, ensure_initial_rv-Same, report-Same, publish-Same, written,
}

module _ (v : GaugeVec) {E W : Type 0} (client : Client E W) (keeps : KeepsConfigMaps client)
    (p : Platform) (sorter : PoolSort) (pipeline : Pipeline) (env : Environment) where
  -- What a write took: the pool and its profile, and the text that was made of them.
  pub record IsWrite (pool : Pool) (w w' : W) : Type 0 where
    pub valid : validate_pool p (some pool) ≡ ok tt
    pub pools : List Pool
    pub listed : client.list_pools w pool.namespace ≡ ok pools
    pub selected :
        (ltb 1 (select_active sorter pools).count
          && not (pool.name == (select_active sorter pools).name))
        ≡ false
    pub profile : Option Profile
    pub looked_up : default_cache_profile client w pool.namespace ≡ ok profile
    pub config_json : String
    pub made : run_pipeline pipeline pool profile ≡ ok config_json
    pub wrote : Same client w' (written client env pool config_json w)

  -- Either no ConfigMap is changed, or the text of the pool and the profile was written.
  abbrev Wrote : Pool → Option Profile → W → W → Type 0
  Wrote pool profile w w' =
      Same client w' w
      ⊎ ((config_json : String) × (run_pipeline pipeline pool profile ≡ ok config_json)
          × Same client w' (written client env pool config_json w))

  reconcile_made-Wrote :
      (t : Clock) (pool : Pool) (profile : Option Profile) (r : Result PipelineError String)
      (s : Operator v client)
      → run_pipeline pipeline pool profile ≡ r
      → Wrote pool profile s.world
          (reconcile_made v client p sorter pipeline env t pool r s).1.world
  unfolding reconcile_made report
  reconcile_made-Wrote t pool profile (err e) s made = inl (keeps pool _ s.world)
  reconcile_made-Wrote t pool profile (ok config_json) s made =
      elim (publish-Same v client keeps p sorter pipeline env t pool config_json s) [
        | inl same ↦ inl same
        | inr wrote ↦ inr (config_json, made, wrote)
      ]

  reconcile_fetched-Wrote :
      (t : Clock) (pool : Pool) (g : Result E (Option Profile)) (s : Operator v client)
      → let w' = (reconcile_fetched v client p sorter pipeline env t pool g s).1.world in
        Same client w' s.world
        ⊎ ((profile : Option Profile) × (g ≡ ok profile) × Wrote pool profile s.world w')
  unfolding reconcile_fetched reconcile_with report
  reconcile_fetched-Wrote t pool (err e) s = inl (keeps pool _ s.world)
  reconcile_fetched-Wrote t pool (ok profile) s =
      inr (profile, refl, reconcile_made-Wrote t pool profile _ s refl)

  reconcile_listed-IsWrite :
      (t : Clock) (pool : Pool) (r : Result E (List Pool)) (s : Operator v client)
      → validate_pool p (some pool) ≡ ok tt
      → client.list_pools s.world pool.namespace ≡ r
      → let w' = (reconcile_listed v client p sorter pipeline env t pool r s).1.world in
        Same client w' s.world ⊎ IsWrite pool s.world w'
  unfolding reconcile_listed
  reconcile_listed-IsWrite t pool (err e) s valid listed = inl (λ n m. refl)
  reconcile_listed-IsWrite t pool (ok pools) s valid listed =
      let active = select_active sorter pools in
      let s' : Operator v client = record s {
        metric = record_selection v pool.namespace active.name active.reason s.metric;
      } in
      let found = default_cache_profile client s.world pool.namespace in
      elim (Bool-cases (ltb 1 active.count && not (pool.name == active.name)))
        as (λ _.
          Same client (reconcile_listed v client p sorter pipeline env t pool (ok pools) s).1.world
            s.world
          ⊎ IsWrite pool s.world
              (reconcile_listed v client p sorter pipeline env t pool (ok pools) s).1.world) [
                | inl superseded ↦ rw superseded (
                    inl (
                      report-Same v client keeps pool false "Superseded"
                        (record { requeue_after = 0; error = none }) s'))
                | inr selected ↦ rw selected (elim (reconcile_fetched-Wrote t pool found s') [
                  | inl same ↦ inl same
                  | inr (profile, looked_up, inl same) ↦ inl same
                  | inr (profile, looked_up, inr (config_json, made, wrote)) ↦ inr (record {
                    valid = valid;
                    pools = pools;
                    listed = listed;
                    selected = selected;
                    profile = profile;
                    looked_up = looked_up;
                    config_json = config_json;
                    made = made;
                    wrote = wrote;
                  })
                ])
              ]

  reconcile_checked-IsWrite :
      (t : Clock) (pool : Pool) (r : Result PoolError (Unit {0})) (s : Operator v client)
      → validate_pool p (some pool) ≡ r
      → let w' = (reconcile_checked v client p sorter pipeline env t pool r s).1.world in
        Same client w' s.world ⊎ IsWrite pool s.world w'
  unfolding reconcile_checked report
  reconcile_checked-IsWrite t pool (err e) s checked = inl (keeps pool _ s.world)
  reconcile_checked-IsWrite t pool (ok _) s checked =
      reconcile_listed-IsWrite t pool _ s checked refl

  reconcile_stamped-IsWrite :
      (t : Clock) (r : Result E Pool) (s : Operator v client)
      → let w' = (reconcile_stamped v client p sorter pipeline env t r s).1.world in
        Same client w' s.world ⊎ ((pool : Pool) × (r ≡ ok pool) × IsWrite pool s.world w')
  unfolding reconcile_stamped
  reconcile_stamped-IsWrite t (err e) s = inl (λ n m. refl)
  reconcile_stamped-IsWrite t (ok pool) s = elim (reconcile_checked-IsWrite t pool _ s refl) [
    | inl same ↦ inl same
    | inr write ↦ inr (pool, refl, write)
  ]

  -- Where patches of pools and their status touch no ConfigMap, a run for a pool that exists
  -- changes none, or it has written one text to the agent's ConfigMap: the text that the generator,
  -- the renderer's check, the marshalling and the size limit let pass for the stamped pool, which
  -- is valid and not superseded, and the namespace's default profile or none where there is none.
  pub reconcile_found-guarded :
      ((pool : Pool) (w : W) → Same client (client.patch_pool pool w).1 w)
      → (t : Clock) (pool : Pool) (s : Operator v client)
      → let w' = (reconcile_found v client p sorter pipeline env t pool s).1.world in
        Same client w' s.world
        ⊎ ((stamped : Pool) × (w : W) × (ensure_initial_rv client.patch_pool pool s.world
              ≡ (ok stamped, w))
            × Same client w s.world
            × IsWrite stamped w w')
  unfolding reconcile_found
  reconcile_found-guarded patched t pool s =
      let (r, w) = ensure_initial_rv client.patch_pool pool s.world in
      let kept : Same client w s.world = ensure_initial_rv-Same client patched pool s.world in
      elim (reconcile_stamped-IsWrite t r (record s { world = w })) [
        | inl same ↦ inl (λ n m. same n m ∙ kept n m)
        | inr (stamped, made, write) ↦ inr (stamped, w, ap (λ x. (x, w)) made, kept, write)
      ]
