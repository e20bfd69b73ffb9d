-- ===== src/Tests/Frames.antt =====
-- What runs leave alone: entries of ConfigMaps, and policies that no change asks for.
use mathlib.Core.List.{Mem, mem-cons_self, not-mem-nil}
use astradns_operator.Base.{
  String, true, ◌==◌, ◌&&◌, some, List, [], ◌∷◌, Result, ok, ◌≡◌, refl, inl, arith, eq_iff,
  if◌then◌else◌,
}
use astradns_operator.Kube.{fetched, pool_changed}
use astradns_operator.Text.{trim_space, is_space}
use astradns_operator.Dict.{get}
use astradns_operator.Policy.{Policy}
use astradns_operator.Policy.Enforce.Apply.{selects}
use astradns_operator.Policy.References.{validate_references}
use astradns_operator.Policy.Watch.{
  request_of, requests_on, map_upstream_pool_to_policies, names_pool, requests_of,
}
use astradns_operator.Policy.Watch.Complete.{Objects, Differ, unasked-unchanged}
use astradns_operator.Pool.ConfigMap.Entries.{entry}
use astradns_operator.Pool.Reconcile.{Operator}
use astradns_operator.Pool.Entry.{reconcile}
use astradns_operator.Pool.Entry.Frame.{reconcile-frames}
use astradns_operator.Pool.Entry.Spec.{SpecStep, view}
use astradns_operator.Pool.Entry.Refines.{reconcile-SpecStep}
use astradns_operator.Samples.{platform, edge, rival, main_pool, no_profile}
use astradns_operator.Tests.Cluster as Teams
use astradns_operator.Tests.ConfigMaps.{Cluster, client-IsStore, closed, noon}
use astradns_operator.Tests.Pools.{insertion, series_map, unset}
use astradns_operator.Tests.Reconciles.{pool, cluster, pipeline, environment}
use astradns_operator.Tests.Runs.{client-IsAtomic, asked}

-- Every ConfigMap has a key of somebody else's.
abbrev shared : Cluster
shared n m = some (some (("motd", "hello") ∷ []))

abbrev start : Operator series_map cluster
start = record { world = shared; circuit = closed; metric = unset }

motd_is_there : entry (shared "dns" "astradns-agent-config") "motd" ≡ some "hello"
unfolding get
motd_is_there = refl

reconcile-frames_example :
    let run =
      reconcile series_map cluster platform insertion environment
        (some pipeline)
        noon
        asked
        start in
    entry (run.1.world "dns" "astradns-agent-config") "motd" ≡ some "hello"
reconcile-frames_example =
    reconcile-frames cluster client-IsStore client-IsAtomic environment "dns"
      "astradns-agent-config" "motd" (some "hello")
      (inl (ground (arith, eq_iff "motd" "config.json"))) series_map (λ q c w n m. refl)
      (λ q w n m. refl) platform insertion (some pipeline) noon asked start motd_is_there

reconcile-SpecStep_example :
    SpecStep cluster platform insertion environment pipeline asked shared (view cluster shared) (
      view cluster
        (reconcile series_map cluster platform insertion environment
          (some pipeline)
          noon
          asked
          start).1.world)
reconcile-SpecStep_example =
    reconcile-SpecStep cluster client-IsStore client-IsAtomic platform insertion environment
      series_map (λ q c w n m. refl) pipeline (λ q w n m. refl) noon asked start

abbrev objects : Objects String
objects = record { pools = main_pool; profiles = no_profile; namespaces = Teams.stored Teams.owned }

-- There is a pool of another name.
abbrev with_spare : Objects String
with_spare = record objects {
  pools = λ n m. if n == "dns" && m == "spare" then fetched pool else main_pool n m;
}

abbrev listing : String → Result String (List Policy)
listing n = ok (edge ∷ rival ∷ [])

spare_differs : Differ with_spare objects (pool_changed "dns" "spare")
spare_differs = Differ.of_pool "dns" "spare" refl refl (λ i j other. rw other refl)

spare_unasked :
    ¬ Mem (request_of edge) (requests_on listing (listing "dns") (pool_changed "dns" "spare"))
unfolding requests_on map_upstream_pool_to_policies names_pool requests_of trim_space is_space
spare_unasked = not-mem-nil

unasked-unchanged_example :
    (validate_references platform with_spare.pools with_spare.profiles (some edge)
      ≡ validate_references platform objects.pools objects.profiles (some edge))
    × ((n : String) → selects edge n ≡ true → with_spare.namespaces n ≡ objects.namespaces n)
unasked-unchanged_example =
    unasked-unchanged platform listing edge (edge ∷ rival ∷ []) refl mem-cons_self
      (edge ∷ rival ∷ []) (pool_changed "dns" "spare") with_spare objects mem-cons_self
      spare_differs spare_unasked
