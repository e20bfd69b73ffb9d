-- ===== src/Tests/Enforces.antt =====
-- The policy controller on a cluster of two namespaces.
use astradns_operator.Base.{
  String, true, false, none, some, [], ◌∷◌, ok, err, ◌≡◌, ◌⊎◌, refl, subst, eq_iff, arith, any,
}
use astradns_operator.Text.{trim_space, is_space}
use astradns_operator.Dict.{get, put, remove}
use astradns_operator.Policy.{Policy, Namespace}
use astradns_operator.Policy.Annotations.{
  read, entries_of, owner_uid_annotation, policy_entries, remove_annotations,
}
use astradns_operator.Policy.Enforce.{EnforceError, is_managed_by, clear_enforcement}
use astradns_operator.Policy.Enforce.Store.{Leaves}
use astradns_operator.Policy.Enforce.Isolation.{IsForeign}
use astradns_operator.Policy.References.Sound.{IsReferable}
use astradns_operator.Policy.Reconcile.{
  clear_failed, status_failed, policy_finalizer, contains_finalizer, add_finalizer,
  remove_finalizer, with_finalizer, reconcile,
}
use astradns_operator.Policy.Reconcile.Isolation.{reconcile-isolates}
use astradns_operator.Policy.Reconcile.Finalizer.{reconcile-finalizes}
use astradns_operator.Policy.Reconcile.Enforced.{reconcile-refuses}
use astradns_operator.Samples.{platform, edge, rival, main_pool, no_profile}
use astradns_operator.Tests.Cluster.{
  marked, owned, Cluster, stored, namespaces, cluster-IsStore, client_of, client_of-IsPolicyStore,
  in_order, team,
}

-- The first namespace is rival's.
abbrev pub disputed : Cluster
disputed = record { first = marked rival; second = none }

abbrev deleted : Policy
deleted = record edge { is_deleted = true; finalizers = policy_finalizer ∷ [] }

clear_runs : (clear_enforcement namespaces edge owned).0 ≡ ok tt
unfolding clear_enforcement policy_entries get is_managed_by trim_space is_space put remove
    remove_annotations
clear_runs = refl

rival_owns : read (entries_of (team "team-a" (marked rival))) owner_uid_annotation ≡ "u2"
unfolding policy_entries get put remove trim_space is_space
rival_owns = refl

pub rival-IsForeign : IsForeign edge.uid (team "team-a" (marked rival))
rival-IsForeign = record {
  claimed = ground (arith, rival_owns, eq_iff "u2" "");
  foreign = ground (arith, rival_owns, eq_iff "u2" "u1");
}

reconcile-isolates_example :
    stored (reconcile (client_of edge) platform in_order "dns" "edge" disputed).1 "team-a"
    ≡ some (team "team-a" (marked rival))
reconcile-isolates_example =
    reconcile-isolates (client_of edge) stored (client_of-IsPolicyStore edge) "team-a"
      (team "team-a" (marked rival)) platform in_order "dns" "edge" disputed
      (λ policy got.
        let alike : edge ≡ policy = cc got in
        subst (λ q. IsForeign q.uid (team "team-a" (marked rival))) alike rival-IsForeign)
      refl

deleted_has_finalizer : contains_finalizer deleted ≡ true
unfolding contains_finalizer any
deleted_has_finalizer = refl

reconcile-finalizes_example :
    let clear = clear_enforcement namespaces deleted owned in
    let run = reconcile (client_of deleted) platform in_order "dns" "edge" owned in
    ((e : EnforceError String) × (clear.0 ≡ err e) × (run ≡ (some (clear_failed e), clear.1)))
    ⊎ ((between : Cluster) × ((n : String) (z : Namespace)
          → stored owned n ≡ some z
          → Leaves (is_managed_by deleted.uid z) z (stored between n))
        × (run.1 ≡ ((client_of deleted).patch_policy (remove_finalizer deleted) between).1)
        × (contains_finalizer (remove_finalizer deleted) ≡ false))
reconcile-finalizes_example =
    reconcile-finalizes (client_of deleted) stored cluster-IsStore platform in_order "dns" "edge"
      owned deleted refl refl deleted_has_finalizer

-- A policy whose pool is not there.
abbrev dangling : Policy
dangling = record edge { upstream_pool_ref = "gone" }

dangling_gets_finalizer :
    with_finalizer (client_of dangling) dangling owned ≡ (ok (add_finalizer dangling), owned)
unfolding with_finalizer any
dangling_gets_finalizer = refl

dangling_not-IsReferable : ¬ IsReferable platform main_pool no_profile (add_finalizer dangling)
unfolding add_finalizer
dangling_not-IsReferable valid = ground (arith, valid.pool)

reconcile-refuses_example :
    let run = reconcile (client_of dangling) platform in_order "dns" "edge" owned in
    ((n : String) → stored run.1 n ≡ stored owned n)
    × ((run.0 ≡ none) ⊎ ((e : String) × (run.0 ≡ some (status_failed e))))
reconcile-refuses_example =
    reconcile-refuses (client_of dangling) platform in_order "dns" "edge" owned owned dangling
      (add_finalizer dangling) refl refl dangling_gets_finalizer stored
      (client_of-IsPolicyStore dangling) dangling_not-IsReferable
