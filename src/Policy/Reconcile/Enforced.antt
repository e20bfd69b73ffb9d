-- ===== src/Policy/Reconcile/Enforced.antt =====
-- A live policy: what a run does to the namespaces, by whether its references are valid.
use astradns_operator.Base.{
  String, Option, none, some, Result, ok, err, ◌≡◌, sym, ◌∙◌, ap, arith, Result-cases, inl, inr,
  false, ◌⊎◌,
}
use astradns_operator.Platform.{Platform}
use astradns_operator.Kube.{fetched}
use astradns_operator.Policy.{Policy, Namespace}
use astradns_operator.Policy.Enforce.{MapRange}
use astradns_operator.Policy.References.{ReferenceError, validate_references}
use astradns_operator.Policy.References.Sound.{IsReferable, validate_references_iff}
use astradns_operator.Policy.Reconcile.{
  PolicyStatus, PolicyClient, status_failed, with_finalizer, set_status, reconcile_validated,
  reconcile_finalized, reconcile,
}
use astradns_operator.Policy.Reconcile.Laws.{
  IsPolicyStore, with_finalizer_kept, reconcile-live_branch,
}

module _ {E W : Type 0} (client : PolicyClient E W) (p : Platform) (order : MapRange)
    (namespace name : String) (w w₁ : W) (policy q : Policy)
    (got : client.get_policy w namespace name ≡ fetched policy) (live : policy.is_deleted ≡ false)
    (kept : with_finalizer client policy w ≡ (ok q, w₁)) where
  pub run_validated :
      (r : Result (ReferenceError E) (Unit {0}))
      → validate_references p (client.get_pool w₁) (client.get_profile w₁) (some q) ≡ r
      → reconcile client p order namespace name w ≡ reconcile_validated client p order q r w₁
  unfolding reconcile_finalized
  run_validated r checked =
      reconcile-live_branch client p order namespace name w policy got live
      ∙ ap (reconcile_finalized client p order) kept
      ∙ ap (λ v. reconcile_validated client p order q v w₁) checked

  module _ (stored : W → String → Option Namespace) (store : IsPolicyStore client stored) where
    pub stored_between : (n : String) → stored w₁ n ≡ stored w n
    stored_between n =
        ap (λ r. stored r.1 n) (sym kept) ∙ with_finalizer_kept client stored store policy w n

    -- Under the client's documentation: a run for a live policy whose references are not valid when they
    -- are looked up, after the finalizer, changes no namespace, and returns no error but one of the
    -- patch of the status.
    pub reconcile-refuses :
        ¬ IsReferable p (client.get_pool w₁) (client.get_profile w₁) q
        → ((n : String) → stored (reconcile client p order namespace name w).1 n ≡ stored w n)
          × (((reconcile client p order namespace name w).0 ≡ none)
              ⊎ ((e : E) × ((reconcile client p order namespace name w).0
                    ≡ some (status_failed e))))
    unfolding reconcile_validated set_status
    reconcile-refuses invalid =
        let checked = validate_references p (client.get_pool w₁) (client.get_profile w₁) (some q) in
        elim (Result-cases checked) [
          | inl (u, valid) ↦ absurd (
              invalid (
                (validate_references_iff p (client.get_pool w₁) (client.get_profile w₁) q).0 valid))
          | inr (e, failed) ↦
              let run = run_validated (err e) failed in
              let status : PolicyStatus = record {
                is_valid = false;
                reason = "ValidationFailed";
                applied_nodes = 0;
              } in
              (
                λ n.
                    ap (λ r. stored r.1 n) run ∙ store.status_kept q status w₁ n ∙ stored_between n,
                elim (Result-cases (client.patch_status q status w₁).0) [
                  | inl (u, passed) ↦ inl (ap (λ r. r.0) run ∙ ground (arith, passed))
                  | inr (f, refused) ↦ inr (f, ap (λ r. r.0) run ∙ ground (arith, refused))
                ],
              )
        ]
