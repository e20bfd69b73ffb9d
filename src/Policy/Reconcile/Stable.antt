-- ===== src/Policy/Reconcile/Stable.antt =====
-- Reconciling a policy again, once it is enforced.
use astradns_operator.Base.{ℕ, String, Option, none, List, ok, ◌≡◌, ◌≢◌, refl, ◌∙◌, ap, true, false}
use astradns_operator.Platform.{Platform}
use astradns_operator.Kube.{fetched, broken}
use astradns_operator.Policy.{Policy, Namespace}
use astradns_operator.Policy.Enforce.{MapRange, enforce_policy}
use astradns_operator.Policy.Enforce.Stable.{enforce_policy-rests}
use astradns_operator.Policy.References.Sound.{IsReferable, validate_references_iff}
use astradns_operator.Policy.Reconcile.{
  PolicyClient, contains_finalizer, with_finalizer, set_status, reconcile_validated, reconcile,
}
use astradns_operator.Policy.Reconcile.Laws.{IsPolicyStore, set_status_kept}
use astradns_operator.Policy.Reconcile.Enforced.{run_validated}
use astradns_operator.Policy.Reconcile.Succeeds.{report_enforcement-ok}

with_finalizer-rests :
    {E W : Type 0} (client : PolicyClient E W) (policy : Policy) (w : W)
    → contains_finalizer policy ≡ true
    → with_finalizer client policy w ≡ (ok policy, w)
unfolding with_finalizer
with_finalizer-rests client policy w there = rw there refl

module _ {E W : Type 0} (client : PolicyClient E W) (stored : W → String → Option Namespace)
    (store : IsPolicyStore client stored) (p : Platform) where
  run_enforced :
      (order : MapRange) (namespace name : String) (w w₁ : W) (policy q : Policy) (c : ℕ)
      → client.get_policy w namespace name ≡ fetched policy
      → policy.is_deleted ≡ false
      → with_finalizer client policy w ≡ (ok q, w₁)
      → IsReferable p (client.get_pool w₁) (client.get_profile w₁) q
      → (enforce_policy client.namespaces order q w₁).0 ≡ ok c
      → reconcile client p order namespace name w
        ≡ set_status client q
            (record { is_valid = true; reason = "Enforced"; applied_nodes = c })
            none
            (enforce_policy client.namespaces order q w₁).1
  unfolding reconcile_validated
  run_enforced order namespace name w w₁ policy q c got live kept valid done =
      run_validated client p order namespace name w w₁ policy q got live kept (ok tt)
        ((validate_references_iff p (client.get_pool w₁) (client.get_profile w₁) q).1 valid)
      ∙ report_enforcement-ok client q (enforce_policy client.namespaces order q w₁) c done

  -- Under the client's documentation: once a run has enforced a live policy that has a UID, any later run
  -- that finds the policy as the first one left it, the namespaces unchanged since, the references still
  -- valid and the namespaces readable writes no object but the status, with the condition and the
  -- count that the first run wrote, in whatever order the two runs visit the selected namespaces.
  pub reconcile-rests :
      (order again : MapRange) (namespace name : String) (w w₁ v : W) (policy q : Policy) (c : ℕ)
      (l : List Namespace)
      → client.get_policy w namespace name ≡ fetched policy
      → policy.is_deleted ≡ false
      → with_finalizer client policy w ≡ (ok q, w₁)
      → IsReferable p (client.get_pool w₁) (client.get_profile w₁) q
      → (enforce_policy client.namespaces order q w₁).0 ≡ ok c
      → ((n : String) → stored v n ≡ stored (reconcile client p order namespace name w).1 n)
      → client.get_policy v namespace name ≡ fetched q
      → q.is_deleted ≡ false
      → q.uid ≢ ""
      → contains_finalizer q ≡ true
      → IsReferable p (client.get_pool v) (client.get_profile v) q
      → client.namespaces.list v ≡ ok l
      → ((n : String) (e : E) → ¬ (client.namespaces.get_namespace v n ≡ broken e))
      → (reconcile client p order namespace name w
          ≡ set_status client q
              (record { is_valid = true; reason = "Enforced"; applied_nodes = c })
              none
              (enforce_policy client.namespaces order q w₁).1)
        × (reconcile client p again namespace name v
            ≡ set_status client q
                (record { is_valid = true; reason = "Enforced"; applied_nodes = c })
                none
                v)
  reconcile-rests order again namespace name w w₁ v policy q c l got live kept valid done same found
        alive blank finalized still listing reads =
      let first = run_enforced order namespace name w w₁ policy q c got live kept valid done in
      let enforced = enforce_policy client.namespaces order q w₁ in
      let unchanged : (n : String) → stored v n ≡ stored enforced.1 n = λ n.
        same n
        ∙ ap (λ r. stored r.1 n) first
        ∙ set_status_kept client stored store q _ none enforced.1 n in
      let rests =
        enforce_policy-rests client.namespaces stored store.namespaces q order again w₁ v c l blank
          done unchanged listing reads in
      let second =
        run_enforced again namespace name v v q q c found alive
          (with_finalizer-rests client q v finalized) still (ap (λ r. r.0) rests) in
      (
        first,
        second
            ∙ ap
                (λ r.
                  set_status client q
                    (record { is_valid = true; reason = "Enforced"; applied_nodes = c }) none r.1)
                rests,
      )
