-- ===== src/Profile/Reconcile/Active.antt =====
-- Which condition a run writes, and which error it returns.
use astradns_operator.Base.{
  true, false, Option, none, some, Result, ok, err, ◌≡◌, ◌↔◌, refl, arith, Result-cases, inl, inr,
}
use astradns_operator.Kube.{fetched, Request}
use astradns_operator.Api.{Profile}
use astradns_operator.Generator.{default_cache, apply_profile}
use astradns_operator.Profile.{validate_profile}
use astradns_operator.Profile.Bounds.{IsSane, IsNonNegative, validate_profile_iff}
use astradns_operator.Profile.Reconcile.{
  ActiveCondition, ProfileClient, ReconcileError, status_failed, set_active, report_checked,
  reconcile,
}

-- The error of a run, from the result of its patch.
abbrev pub error_of : {E : Type 0} → Result E (Unit {0}) → Option (ReconcileError E)
error_of (ok _) = none
error_of (err e) = some (status_failed e)

module _ {E W : Type 0} (client : ProfileClient E W) where
  set_active-error_of :
      (profile : Profile) (condition : ActiveCondition) (w : W)
      → set_active client profile condition w ≡ (
        error_of (client.patch_status profile condition w).0,
        (client.patch_status profile condition w).1,
      )
  unfolding set_active
  set_active-error_of profile condition w =
      elim (Result-cases (client.patch_status profile condition w).0) [
        | inl (u, passed) ↦ ground (arith, passed)
        | inr (e, failed) ↦ ground (arith, failed)
      ]

  -- A run for a profile that is there makes one patch of its status, returns an error exactly where
  -- the patch does, and marks the profile active exactly when no field is negative and the cache
  -- settings that the generator makes of it are positive with an ordered TTL range.
  pub reconcile-active_iff :
      (req : Request) (w : W) (profile : Profile)
      → client.get_profile w req.namespace req.name ≡ fetched profile
      → (condition : ActiveCondition) × (reconcile client req w ≡ (
        error_of (client.patch_status profile condition w).0,
        (client.patch_status profile condition w).1,
      ))
        × ((condition.is_active ≡ true)
            ↔ (IsNonNegative profile × IsSane (apply_profile default_cache (some profile))))
  unfolding reconcile report_checked
  reconcile-active_iff req w profile got =
      let (to, from) = validate_profile_iff profile in
      elim (Result-cases (validate_profile (some profile))) [
        | inl (u, valid) ↦
            let condition : ActiveCondition = record { is_active = true; reason = "Active" } in
            (
              condition,
              rw (reconcile, got, valid) (set_active-error_of profile condition w),
              (λ _. to valid, λ _. refl),
            )
        | inr (e, refused) ↦
            let condition : ActiveCondition = record {
              is_active = false;
              reason = "InvalidSpec";
            } in
            (
              condition,
              rw (reconcile, got, refused) (set_active-error_of profile condition w),
              (
                λ h. absurd (ground (arith, h)),
                λ good. absurd (ground (arith, from good, refused)),
              ),
            )
      ]
