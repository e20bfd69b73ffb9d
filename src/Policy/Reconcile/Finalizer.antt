-- ===== src/Policy/Reconcile/Finalizer.antt =====
-- A policy that is being deleted: its namespaces are released before its finalizer is removed.
use astradns_operator.Base.{
  String, Option, some, List, [], ◌∷◌, any, ◌==◌, Result, ok, err, ◌≡◌, refl, ◌∙◌, ap, arith,
  Bool-cases, Result-cases, inl, inr, true, false, ◌⊎◌,
}
use astradns_operator.Platform.{Platform}
use astradns_operator.Kube.{fetched}
use astradns_operator.Policy.{Policy, Namespace}
use astradns_operator.Policy.Enforce.{MapRange, EnforceError, is_managed_by, clear_enforcement}
use astradns_operator.Policy.Enforce.Store.{IsStore, Leaves}
use astradns_operator.Policy.Enforce.Removal.{clear_enforcement-releases}
use astradns_operator.Policy.Reconcile.{
  PolicyClient, clear_failed, policy_finalizer, contains_finalizer, without, remove_finalizer,
  finalize, reconcile_deleted, reconcile,
}
use astradns_operator.Policy.Reconcile.Laws.{reconcile-deleted_branch}

any-without : (name : String) (l : List String) → any (λ f. f == name) (without name l) ≡ false
unfolding any without
any-without name [] = refl
any-without name (x ∷ xs) = elim (Bool-cases (x == name)) [
  | inl same ↦ rw same (any-without name xs)
  | inr other ↦ rw other (rw other (any-without name xs))
]

contains_finalizer-remove_finalizer :
    (policy : Policy) → contains_finalizer (remove_finalizer policy) ≡ false
unfolding contains_finalizer remove_finalizer
contains_finalizer-remove_finalizer policy = any-without policy_finalizer policy.finalizers

module _ {E W : Type 0} (client : PolicyClient E W) (policy : Policy) where
  finalize-clear_failed :
      (r : Result (EnforceError E) (Unit {0}) × W) (e : EnforceError E)
      → r.0 ≡ err e
      → finalize client policy r ≡ (some (clear_failed e), r.1)
  unfolding finalize
  finalize-clear_failed (err f, w) e h = cc h
  finalize-clear_failed (ok _, w) e h = absurd (ground (arith, h))

  finalize-patch :
      (r : Result (EnforceError E) (Unit {0}) × W)
      → r.0 ≡ ok tt
      → (finalize client policy r).1 ≡ (client.patch_policy (remove_finalizer policy) r.1).1
  unfolding finalize
  finalize-patch (err f, w) h = absurd (ground (arith, h))
  finalize-patch (ok _, w) h = refl

-- Under the client's documentation of namespaces: for a policy that is being deleted and has the
-- finalizer, either clearing fails, and the run returns that error and makes no further call, or every
-- namespace that the policy owns is without the four keys, all else in every namespace being as it was,
-- before the run's one further call, the patch of the policy, which then lacks the finalizer.
pub reconcile-finalizes :
    {E W : Type 0} (client : PolicyClient E W) (stored : W → String → Option Namespace)
    (store : IsStore client.namespaces stored) (p : Platform) (order : MapRange)
    (namespace name : String) (w : W) (policy : Policy)
    → client.get_policy w namespace name ≡ fetched policy
    → policy.is_deleted ≡ true
    → contains_finalizer policy ≡ true
    → ((e : EnforceError E) × ((clear_enforcement client.namespaces policy w).0 ≡ err e)
        × (reconcile client p order namespace name w
            ≡ (some (clear_failed e), (clear_enforcement client.namespaces policy w).1)))
      ⊎ ((between : W) × ((n : String) (z : Namespace)
            → stored w n ≡ some z
            → Leaves (is_managed_by policy.uid z) z (stored between n))
          × ((reconcile client p order namespace name w).1
              ≡ (client.patch_policy (remove_finalizer policy) between).1)
          × (contains_finalizer (remove_finalizer policy) ≡ false))
unfolding reconcile_deleted
reconcile-finalizes client stored store p order namespace name w policy got deleted there =
    let clear = clear_enforcement client.namespaces policy w in
    let run : reconcile client p order namespace name w ≡ finalize client policy clear =
      reconcile-deleted_branch client p order namespace name w policy got deleted ∙ rw there refl in
    elim (Result-cases clear.0) [
      | inr (e, failed) ↦ inl (e, failed, run ∙ finalize-clear_failed client policy clear e failed)
      | inl (u, cleared) ↦ inr (
        clear.1,
        λ n z. clear_enforcement-releases client.namespaces stored store policy w n z cleared,
        ap (λ r. r.1) run ∙ finalize-patch client policy clear cleared,
        contains_finalizer-remove_finalizer policy,
      )
    ]
