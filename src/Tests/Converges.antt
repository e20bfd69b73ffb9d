-- ===== src/Tests/Converges.antt =====
-- Runs for a namespace with two pools.
use mathlib.Core.List.Perm
use mathlib.Core.List.{Mem, Perm, mem-cons_self, mem-cons_of_mem}
use astradns_operator.Base.{
  String, ◌==◌, none, some, List, [], ◌∷◌, ok, ◌≡◌, ◌⊎◌, refl, sym, subst, All, eq_iff, arith, ap,
  if◌then◌else◌,
}
use text.Mathlib.TextEquality.{IsScalar-prop}
use astradns_operator.Base.{◌≢◌, Bool, true, false}
use astradns_operator.Base.Members.{All-mem}
use astradns_operator.Base.Sort.{sort_stable}
use astradns_operator.Dict.{get}
use astradns_operator.Text.{parse_int64, text_less}
use astradns_operator.Kube.{fetched, absent, Fetched}
use astradns_operator.Api.{Pool}
use astradns_operator.Pool.Select.{initial_rv, pool_less, select_active}
use astradns_operator.Pool.Select.Order.{IsStamped}
use astradns_operator.Pool.Reconcile.{default_cache_profile, Client, Operator}
use astradns_operator.Pool.Entry.{reconcile}
use astradns_operator.Pool.Entry.Steady.{IsSteady, IsNamed}
use astradns_operator.Pool.Entry.Converges.{Passes, agent, Passes-settles}
use astradns_operator.Base.{inl, inr}
use astradns_operator.Pool.Select.Order.{IsNoOlder}
use astradns_operator.Pool.Validate.Sound.{IsValidPool, validate_pool_iff}
use astradns_operator.Pool.ConfigMap.{upsert_config_map}
use astradns_operator.Pool.Entry.Publishes.{IsServed, reconcile-publishes}
use astradns_operator.Tests.Reconciles.{pool_is_valid}
use astradns_operator.Samples.{platform, plain_pool}
use astradns_operator.Tests.ConfigMaps.{Cluster, client-IsStore, noon, no_maps, closed}
use astradns_operator.Tests.Pools.{insertion, series_map, unset}
use astradns_operator.Tests.Reconciles.{pool, cluster, pipeline, environment, pipeline_passes}
use astradns_operator.Tests.Runs.{client-IsAtomic}

abbrev younger : Pool
younger = plain_pool "alpha" 20 (some "9")

abbrev both : List Pool
both = younger ∷ pool ∷ []

-- The younger pool is not in the cache yet.
abbrev busy : Client String Cluster
busy = record cluster {
  list_pools = λ w namespace. ok both;
  get_pool = λ w namespace name. if name == "main" then fetched pool else absent;
}

both-IsStamped : All IsStamped both
unfolding initial_rv parse_int64
both-IsStamped = (((λ e. cc), omega arith), (((λ e. cc), omega arith), tt))

Pool-set : IsSet Pool
Pool-set = hlevel (IsScalar-prop)

differ : younger.name ≢ pool.name
differ = ground (arith, eq_iff "alpha" "main")

younger_named : (b : Pool) → Mem b both → younger.name ≡ b.name → younger ≡ b
younger_named b b_in =
    All-mem {P = λ y. younger.name ≡ y.name → younger ≡ y} (λ y. hlevel (Pool-set)) both
      ((λ e. refl), ((λ e. absurd (differ e)), tt)) b_in

main_named : (b : Pool) → Mem b both → pool.name ≡ b.name → pool ≡ b
main_named b b_in =
    All-mem {P = λ y. pool.name ≡ y.name → pool ≡ y} (λ y. hlevel (Pool-set)) both
      ((λ e. absurd (differ (sym e))), ((λ e. refl), tt)) b_in

both-IsNamed : IsNamed both
both-IsNamed a b a_in b_in =
    All-mem {P = λ x. x.name ≡ b.name → x ≡ b} (λ x. hlevel (Pool-set)) both
      (younger_named b b_in, (main_named b b_in, tt)) a_in

main_is_selected : pool.name ≡ (select_active insertion both).name
unfolding select_active sort_stable pool_less initial_rv parse_int64 get
main_is_selected = refl

abbrev cached : Bool → Fetched String Pool
cached is_main = if is_main then fetched pool else absent

cached-mem :
    (is_main : Bool) (q : Pool) → cached is_main ≡ fetched q → Mem q both × (q.namespace ≡ "dns")
cached-mem true q h =
    let e : pool ≡ q = cc in
    (
      subst (λ x. Mem x both) e (mem-cons_of_mem younger mem-cons_self),
      ap (λ (x : Pool). x.namespace) (sym e),
    )
cached-mem false q h = absurd (cc)

busy-IsSteady :
    (w : Cluster) → IsSteady busy platform insertion pipeline environment "dns" both none w
unfolding default_cache_profile
busy-IsSteady w = record {
  listed = λ l h. let e : both ≡ l = cc in subst (λ k. Perm k both) e (Perm.refl both);
  got = λ n q h. cached-mem (n == "main") q h;
  looked_up = λ g h. cc;
}

abbrev begun : Operator series_map busy
begun = record { world = no_maps; circuit = closed; metric = unset }

abbrev after_one : Operator series_map busy
after_one =
    (reconcile series_map busy platform insertion environment (some pipeline) noon
      (record { namespace = "dns"; name = "alpha" }) begun).1

abbrev after_two : Operator series_map busy
after_two =
    (reconcile series_map busy platform insertion environment (some pipeline) noon
      (record { namespace = "dns"; name = "main" }) after_one).1

two_passes :
    Passes busy platform insertion environment series_map pipeline "dns" both none begun after_two
two_passes =
    Passes.run after_one noon "main" (busy-IsSteady after_one.world)
      (Passes.run begun noon "alpha" (busy-IsSteady begun.world) Passes.here)

Passes-settles_example :
    let read = agent busy platform insertion environment series_map pipeline "dns" both none in
    (read after_two.world ≡ read begun.world) ⊎ (read after_two.world ≡ some "{}")
Passes-settles_example =
    Passes-settles busy platform insertion environment series_map pipeline "dns" both none
      client-IsStore client-IsAtomic (λ q c w n m. refl) (λ q w n m. refl) begun after_two pool "{}"
      both-IsStamped both-IsNamed (mem-cons_of_mem younger mem-cons_self) main_is_selected
      pipeline_passes two_passes

pool-IsValidPool : IsValidPool platform pool
pool-IsValidPool = (validate_pool_iff platform pool).0 pool_is_valid

main_is_oldest : All (λ x. IsNoOlder x pool) both
unfolding initial_rv parse_int64 text_less
main_is_oldest = (inl (omega arith), (inr (inr (refl, refl, refl)), tt))

main-IsServed :
    IsServed busy platform insertion environment series_map pipeline "dns" both none pool "{}" noon
      begun
unfolding default_cache_profile get upsert_config_map
main-IsServed = record {
  got = refl;
  here = refl;
  shown = both;
  listed = refl;
  all_shown = Perm.refl both;
  looked_up = refl;
  let_through = refl;
  writes = refl;
}

abbrev after_main : Operator series_map busy
after_main =
    (reconcile series_map busy platform insertion environment (some pipeline) noon
      (record { namespace = "dns"; name = "main" }) begun).1

reconcile-publishes_example :
    let read = agent busy platform insertion environment series_map pipeline "dns" both none in
    (read after_main.world ≡ some "{}")
    × ((w' : Cluster) × (after_main.world
          ≡ (busy.patch_status pool (record { is_ready = true; reason = "Ready" }) w').1))
    × ((later : Operator series_map busy)
        → Passes busy platform insertion environment series_map pipeline "dns" both none after_main
            later
        → read later.world ≡ some "{}")
reconcile-publishes_example =
    reconcile-publishes busy platform insertion environment series_map pipeline "dns" both none
      both-IsStamped pool (mem-cons_of_mem younger mem-cons_self) main_is_oldest pool-IsValidPool
      "{}" pipeline_passes noon begun main-IsServed client-IsStore client-IsAtomic
      (λ q c w n m. refl) (λ q w n m. refl) both-IsNamed
