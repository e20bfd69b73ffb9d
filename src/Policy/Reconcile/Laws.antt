-- ===== src/Policy/Reconcile/Laws.antt =====
-- What the policy controller's client documents, and the steps of a run under it.
use astradns_operator.Base.{
  String, Option, none, ok, ◌≡◌, refl, sym, ◌∙◌, ap, arith, Bool-cases, Result-cases, inl, inr,
  true, false, if◌then◌else◌,
}
use astradns_operator.Policy.{Policy, Namespace}
use astradns_operator.Platform.{Platform}
use astradns_operator.Kube.{fetched}
use astradns_operator.Policy.Enforce.{MapRange}
use astradns_operator.Policy.Enforce.Store.{IsStore}
use astradns_operator.Policy.Reconcile.{
  PolicyStatus, PolicyClient, PolicyError, with_finalizer, set_status, add_finalizer,
  contains_finalizer, reconcile_deleted, reconcile_finalized, reconcile_policy, reconcile,
}

-- The calls on namespaces have a store, which patches of policies leave alone; a patch changes no UID.
pub record IsPolicyStore {E W : Type 0} (client : PolicyClient E W)
    (stored : W → String → Option Namespace) : Type 0 where
  pub namespaces : IsStore client.namespaces stored
  pub policy_kept :
      (policy : Policy) (w : W) (n : String)
      → stored (client.patch_policy policy w).1 n ≡ stored w n
  pub status_kept :
      (policy : Policy) (status : PolicyStatus) (w : W) (n : String)
      → stored (client.patch_status policy status w).1 n ≡ stored w n
  pub same_uid :
      (policy q : Policy) (w : W) → (client.patch_policy policy w).0 ≡ ok q → q.uid ≡ policy.uid

module _ {E W : Type 0} (client : PolicyClient E W) (stored : W → String → Option Namespace)
    (store : IsPolicyStore client stored) where
  pub set_status_kept :
      (policy : Policy) (status : PolicyStatus) (outcome : Option (PolicyError E)) (w : W)
      (n : String)
      → stored (set_status client policy status outcome w).1 n ≡ stored w n
  unfolding set_status
  set_status_kept policy status outcome w n = store.status_kept policy status w n

  pub with_finalizer_kept :
      (policy : Policy) (w : W) (n : String)
      → stored (with_finalizer client policy w).1 n ≡ stored w n
  unfolding with_finalizer
  with_finalizer_kept policy w n = elim (Bool-cases (contains_finalizer policy)) [
    | inl there ↦ rw there refl
    | inr lacks ↦ rw lacks (store.policy_kept (add_finalizer policy) w n)
  ]

  pub with_finalizer-uid :
      (policy q : Policy) (w : W) → (with_finalizer client policy w).0 ≡ ok q → q.uid ≡ policy.uid
  unfolding with_finalizer add_finalizer
  with_finalizer-uid policy q w h = elim (Bool-cases (contains_finalizer policy)) [
    | inl there ↦
        let same : ok q ≡ ok policy = sym h ∙ rw there refl in
        let alike : q ≡ policy = cc same in ap (λ x. x.uid) alike
    | inr lacks ↦ store.same_uid (add_finalizer policy) q w (sym (rw lacks refl) ∙ h)
  ]

pub set_status-ok :
    {E W : Type 0} (client : PolicyClient E W) (policy : Policy) (status : PolicyStatus)
    (outcome : Option (PolicyError E)) (w : W)
    → (set_status client policy status outcome w).0 ≡ none
    → outcome ≡ none
unfolding set_status
set_status-ok client policy status outcome w h =
    elim (Result-cases (client.patch_status policy status w).0) [
      | inl (u, passed) ↦ ground (arith, passed, h)
      | inr (e, failed) ↦ absurd (ground (arith, failed, h))
    ]

-- The branches of a run, by the policy that the request names.
module _ {E W : Type 0} (client : PolicyClient E W) (p : Platform) (order : MapRange) where
  pub reconcile-deleted_branch :
      (namespace name : String) (w : W) (policy : Policy)
      → client.get_policy w namespace name ≡ fetched policy
      → policy.is_deleted ≡ true
      → reconcile client p order namespace name w ≡ reconcile_deleted client policy w
  unfolding reconcile reconcile_policy
  reconcile-deleted_branch namespace name w policy got deleted =
      rw (reconcile, got)
        (ap
          (λ b.
            if b
            then reconcile_deleted client policy w
            else reconcile_finalized client p order (with_finalizer client policy w))
          deleted)

  pub reconcile-live_branch :
      (namespace name : String) (w : W) (policy : Policy)
      → client.get_policy w namespace name ≡ fetched policy
      → policy.is_deleted ≡ false
      → reconcile client p order namespace name w
        ≡ reconcile_finalized client p order (with_finalizer client policy w)
  unfolding reconcile reconcile_policy
  reconcile-live_branch namespace name w policy got live =
      rw (reconcile, got)
        (ap
          (λ b.
            if b
            then reconcile_deleted client policy w
            else reconcile_finalized client p order (with_finalizer client policy w))
          live)
