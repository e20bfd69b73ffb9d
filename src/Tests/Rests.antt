-- ===== src/Tests/Rests.antt =====
-- A policy that is reconciled twice.
use astradns_operator.Base.{none, ok, ◌≡◌, refl, true, ◌≢◌, arith, eq_iff, [], ◌∷◌, any}
use astradns_operator.Text.{trim_space, is_space}
use astradns_operator.Dict.{get, put, remove}
use astradns_operator.Policy.Annotations.{policy_entries, update_annotations}
use astradns_operator.Policy.Enforce.{is_managed_by, enforce_policy}
use astradns_operator.Policy.Reconcile.{contains_finalizer, set_status, reconcile}
use astradns_operator.Policy.Reconcile.Stable.{reconcile-rests}
use astradns_operator.Samples.{platform}
use astradns_operator.Tests.Cluster.{
  Cluster, reads_not_broken, stored, namespaces, client_of, client_of-IsPolicyStore, in_order,
  owned, team,
}
use astradns_operator.Tests.Settles.{settled, settled-IsReferable, settled_keeps_finalizer}

-- The cluster after the first run.
abbrev after : Cluster
after = (reconcile (client_of settled) platform in_order "dns" "edge" owned).1

settled_applied : (enforce_policy namespaces in_order settled owned).0 ≡ ok 2
unfolding enforce_policy policy_entries get is_managed_by put remove update_annotations trim_space
    is_space any
settled_applied = refl

settled_uid : settled.uid ≢ ""
settled_uid = ground (arith, eq_iff settled.uid "")

settled_finalized : contains_finalizer settled ≡ true
unfolding contains_finalizer any
settled_finalized = refl

reconcile-rests_example :
    let enforced = enforce_policy namespaces in_order settled owned in
    (reconcile (client_of settled) platform in_order "dns" "edge" owned
      ≡ set_status
          (client_of settled)
          settled
          (record { is_valid = true; reason = "Enforced"; applied_nodes = 2 })
          none
          enforced.1)
    × (reconcile (client_of settled) platform in_order "dns" "edge" after
        ≡ set_status
            (client_of settled)
            settled
            (record { is_valid = true; reason = "Enforced"; applied_nodes = 2 })
            none
            after)
reconcile-rests_example =
    reconcile-rests (client_of settled) stored (client_of-IsPolicyStore settled) platform in_order
      in_order "dns" "edge" owned owned after settled settled 2
      (team "team-a" after.first ∷ team "team-b" after.second ∷ []) refl refl
      settled_keeps_finalizer settled-IsReferable settled_applied (λ n. refl) refl refl settled_uid
      settled_finalized settled-IsReferable refl (reads_not_broken after)
