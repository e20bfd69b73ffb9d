-- ===== src/Policy/Reconcile/Isolation.antt =====
-- A run for one policy leaves the namespaces of another alone.
use astradns_operator.Base.{
  ℕ, String, Option, some, Result, ok, err, ◌≡◌, refl, sym, ◌∙◌, ap, subst, Bool-cases, inl, inr,
}
use astradns_operator.Platform.{Platform}
use astradns_operator.Kube.{fetched, Fetched-cases}
use astradns_operator.Policy.{Policy, Namespace}
use astradns_operator.Policy.Enforce.{MapRange, enforce_policy, clear_enforcement, EnforceError}
use astradns_operator.Policy.Enforce.Isolation.{
  IsForeign, enforce_policy-isolates, clear_enforcement-isolates,
}
use astradns_operator.Policy.References.{ReferenceError}
use astradns_operator.Policy.Reconcile.{
  PolicyClient, set_status, contains_finalizer, remove_finalizer, with_finalizer, finalize,
  reconcile_deleted, report_enforcement, reconcile_validated, reconcile_finalized, reconcile_policy,
  reconcile,
}
use astradns_operator.Policy.Reconcile.Laws.{
  IsPolicyStore, reconcile-deleted_branch, reconcile-live_branch, with_finalizer_kept,
  with_finalizer-uid,
}

module _ {E W : Type 0} (client : PolicyClient E W) (stored : W → String → Option Namespace)
    (store : IsPolicyStore client stored) (n : String) (x : Namespace) where
  finalize_kept :
      (policy : Policy) (r : Result (EnforceError E) (Unit {0}) × W)
      → stored (finalize client policy r).1 n ≡ stored r.1 n
  unfolding finalize
  finalize_kept policy (err e, w) = refl
  finalize_kept policy (ok _, w) = store.policy_kept (remove_finalizer policy) w n

  pub report_enforcement_kept :
      (policy : Policy) (r : Result (EnforceError E) ℕ × W)
      → stored (report_enforcement client policy r).1 n ≡ stored r.1 n
  unfolding report_enforcement set_status
  report_enforcement_kept policy (ok c, w) = store.status_kept policy _ w n
  report_enforcement_kept policy (err e, w) = store.status_kept policy _ w n

  reconcile_deleted-isolates :
      (policy : Policy) (w : W)
      → IsForeign policy.uid x
      → stored w n ≡ some x
      → stored (reconcile_deleted client policy w).1 n ≡ some x
  unfolding reconcile_deleted
  reconcile_deleted-isolates policy w f h = elim (Bool-cases (contains_finalizer policy)) [
    | inr lacks ↦ rw lacks h
    | inl there ↦ rw there (
        finalize_kept policy (clear_enforcement client.namespaces policy w)
        ∙ clear_enforcement-isolates client.namespaces stored store.namespaces n x policy w f h)
  ]

  module _ (p : Platform) (order : MapRange) where
    reconcile_validated-isolates :
        (policy : Policy) (r : Result (ReferenceError E) (Unit {0})) (w : W)
        → IsForeign policy.uid x
        → stored w n ≡ some x
        → stored (reconcile_validated client p order policy r w).1 n ≡ some x
    unfolding reconcile_validated set_status
    reconcile_validated-isolates policy (err e) w f h = store.status_kept policy _ w n ∙ h
    reconcile_validated-isolates policy (ok _) w f h =
        report_enforcement_kept policy (enforce_policy client.namespaces order policy w)
        ∙ enforce_policy-isolates client.namespaces stored store.namespaces n x order policy w f h

    reconcile_finalized-isolates :
        (uid : String) (r : Result E Policy × W)
        → ((policy : Policy) → r.0 ≡ ok policy → policy.uid ≡ uid)
        → IsForeign uid x
        → stored r.1 n ≡ some x
        → stored (reconcile_finalized client p order r).1 n ≡ some x
    unfolding reconcile_finalized
    reconcile_finalized-isolates uid (err e, w) same f h = h
    reconcile_finalized-isolates uid (ok policy, w) same f h =
        reconcile_validated-isolates policy _ w
          (subst (λ u. IsForeign u x) (sym (same policy refl)) f) h

    -- Under the client's documentation: a run for a request, whether the policy it names is there, live
    -- or being deleted, and whatever call fails, leaves as it was a namespace whose annotations name
    -- an owner other than that policy.
    pub reconcile-isolates :
        (namespace name : String) (w : W)
        → ((policy : Policy)
            → client.get_policy w namespace name ≡ fetched policy
            → IsForeign policy.uid x)
        → stored w n ≡ some x
        → stored (reconcile client p order namespace name w).1 n ≡ some x
    unfolding reconcile reconcile_policy
    reconcile-isolates namespace name w foreign h =
        elim (Fetched-cases (client.get_policy w namespace name)) [
          | inl missing ↦ rw (reconcile, missing) h
          | inr (inl (e, failed)) ↦ rw (reconcile, failed) h
          | inr (inr (policy, got)) ↦
              let f = foreign policy got in
              elim (Bool-cases policy.is_deleted) [
                | inl deleted ↦
                    ap (λ r. stored r.1 n)
                      (reconcile-deleted_branch client p order namespace name w policy got deleted)
                    ∙ reconcile_deleted-isolates policy w f h
                | inr live ↦
                    ap (λ r. stored r.1 n)
                      (reconcile-live_branch client p order namespace name w policy got live)
                    ∙ reconcile_finalized-isolates policy.uid (with_finalizer client policy w)
                        (λ q. with_finalizer-uid client stored store policy q w) f
                        (with_finalizer_kept client stored store policy w n ∙ h)
              ]
        ]
