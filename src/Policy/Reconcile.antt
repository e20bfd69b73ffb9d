-- ===== src/Policy/Reconcile.antt =====
-- `Reconcile` of the policy controller with its finalizer. Log lines and events are left out, and of
-- the condition its message; the reads of one run see one world, which only its calls change.
pub mod Laws
pub mod Isolation
pub mod Finalizer
pub mod Enforced
pub mod Succeeds
pub mod Stable
use astradns_operator.Base.{
  ℕ, String, Bool, true, false, not, ◌==◌, Option, none, some, List, [], ◌∷◌, ◌++◌, any, Result, ok,
  err, if◌then◌else◌,
}
use astradns_operator.Platform.{Platform}
use astradns_operator.Kube.{Fetched, fetched, absent, broken}
use astradns_operator.Api.{Pool, Profile}
use astradns_operator.Policy.{Policy}
use astradns_operator.Policy.Annotations.{conflict, patch_failed}
use astradns_operator.Policy.References.{ReferenceError, validate_references}
use astradns_operator.Policy.Enforce.{
  Namespaces, MapRange, EnforceError, list_failed, get_failed, update_failed, enforce_policy,
  clear_enforcement,
}

-- `externalPolicyFinalizer`
abbrev pub policy_finalizer : String
policy_finalizer = "dns.astradns.com/external-policy-finalizer"

-- `controllerutil.ContainsFinalizer`
unfoldable pub contains_finalizer : Policy → Bool
unfolding any
contains_finalizer policy = any (λ f. f == policy_finalizer) policy.finalizers

unfoldable pub without : String → List String → List String
without name [] = []
without name (x ∷ xs) = let rest = without name xs in if x == name then rest else x ∷ rest

-- `controllerutil.RemoveFinalizer`
unfoldable pub remove_finalizer : Policy → Policy
unfolding without
remove_finalizer policy = record policy { finalizers = without policy_finalizer policy.finalizers }

-- `controllerutil.AddFinalizer` on a policy that lacks it
unfoldable pub add_finalizer : Policy → Policy
add_finalizer policy = record policy { finalizers = policy.finalizers ++ (policy_finalizer ∷ []) }

-- What `setValidatedCondition` writes to the status.
pub record PolicyStatus : Type 0 where
  pub is_valid : Bool
  pub reason : String
  pub applied_nodes : ℕ

-- The client's calls, by namespace and name; a patch returns the object that the server answers.
pub record PolicyClient (E W : Type 0) : Type 0 where
  pub get_policy : W → String → String → Fetched E Policy
  pub get_pool : W → String → String → Fetched E Pool
  pub get_profile : W → String → String → Fetched E Profile
  pub namespaces : Namespaces E W
  pub patch_policy : Policy → W → Result E Policy × W
  pub patch_status : Policy → PolicyStatus → W → Result E (Unit {0}) × W

pub data PolicyError (E : Type 0) : Type 0 where
  policy_failed finalizer_failed status_failed : E → PolicyError E
  clear_failed enforce_failed : EnforceError E → PolicyError E

-- `errors.Is(err, errNamespacePolicyConflict)`
unfoldable pub is_conflict : {E : Type 0} → EnforceError E → Bool
is_conflict (update_failed (conflict c)) = true
is_conflict (update_failed (patch_failed e)) = false
is_conflict (list_failed e) = false
is_conflict (get_failed n e) = false

module _ {E W : Type 0} (client : PolicyClient E W) where
  -- the branch that adds the finalizer
  unfoldable pub with_finalizer : Policy → W → Result E Policy × W
  unfolding contains_finalizer
  with_finalizer policy w =
      if contains_finalizer policy
      then (ok policy, w)
      else client.patch_policy (add_finalizer policy) w

  -- `setValidatedCondition`, and the return that follows it
  unfoldable pub set_status :
      Policy → PolicyStatus → Option (PolicyError E) → W → Option (PolicyError E) × W
  set_status policy status outcome w =
      let (r, w') = client.patch_status policy status w in
      (elim r [ ok _ ↦ outcome | err e ↦ some (status_failed e) ], w')

  -- the patch that follows `clearPolicyEnforcement`
  unfoldable pub finalize :
      Policy → Result (EnforceError E) (Unit {0}) × W → Option (PolicyError E) × W
  unfolding remove_finalizer
  finalize policy (err e, w) = (some (clear_failed e), w)
  finalize policy (ok _, w) =
      let (r, w') = client.patch_policy (remove_finalizer policy) w in
      (elim r [ ok _ ↦ none | err e ↦ some (finalizer_failed e) ], w')

  -- the branch of a policy that is being deleted
  unfoldable pub reconcile_deleted : Policy → W → Option (PolicyError E) × W
  unfolding contains_finalizer finalize
  reconcile_deleted policy w =
      if not (contains_finalizer policy)
      then (none, w)
      else finalize policy (clear_enforcement client.namespaces policy w)

  -- what follows `enforcePolicy`
  unfoldable pub report_enforcement :
      Policy → Result (EnforceError E) ℕ × W → Option (PolicyError E) × W
  unfolding is_conflict set_status
  report_enforcement policy (ok applied, w) =
      set_status policy (record { is_valid = true; reason = "Enforced"; applied_nodes = applied })
        none w
  report_enforcement policy (err e, w) =
      set_status policy
        (record { is_valid = false; reason = "EnforcementFailed"; applied_nodes = 0 })
        (if is_conflict e then none else some (enforce_failed e)) w

  module _ (p : Platform) (order : MapRange) where
    -- what follows `validateReferences`
    unfoldable pub reconcile_validated :
        Policy → Result (ReferenceError E) (Unit {0}) → W → Option (PolicyError E) × W
    unfolding report_enforcement set_status
    reconcile_validated policy (err e) w =
        set_status policy
          (record { is_valid = false; reason = "ValidationFailed"; applied_nodes = 0 }) none w
    reconcile_validated policy (ok _) w =
        report_enforcement policy (enforce_policy client.namespaces order policy w)

    -- what follows the patch that adds the finalizer
    unfoldable pub reconcile_finalized : Result E Policy × W → Option (PolicyError E) × W
    unfolding reconcile_validated
    reconcile_finalized (err e, w) = (some (finalizer_failed e), w)
    reconcile_finalized (ok policy, w) =
        reconcile_validated policy
          (validate_references p (client.get_pool w) (client.get_profile w) (some policy)) w

    -- a policy that was found
    unfoldable pub reconcile_policy : Policy → W → Option (PolicyError E) × W
    unfolding reconcile_deleted reconcile_finalized with_finalizer
    reconcile_policy policy w =
        if policy.is_deleted
        then reconcile_deleted policy w
        else reconcile_finalized (with_finalizer policy w)

    -- `Reconcile`
    unfoldable pub reconcile : String → String → W → Option (PolicyError E) × W
    unfolding reconcile_policy
    reconcile namespace name w = elim (client.get_policy w namespace name) [
      | absent ↦ (none, w)
      | broken e ↦ (some (policy_failed e), w)
      | fetched policy ↦ reconcile_policy policy w
    ]
