-- ===== src/Profile/Reconcile.antt =====
-- `Reconcile` of the cache profile controller, and `setActiveCondition`. Log lines and events are left
-- out, and of the condition its message and the observed generation.
pub mod Active
use astradns_operator.Base.{
  String, Bool, true, false, Option, none, some, List, [], ◌∷◌, Result, ok, err,
}
use astradns_operator.Kube.{
  Fetched, fetched, absent, broken, Request, Change, pool_changed, profile_changed, policy_changed,
  namespace_changed,
}
use astradns_operator.Api.{Profile}
use astradns_operator.Profile.{ProfileError, validate_profile}

-- The `Active` condition of a profile's status.
pub record ActiveCondition : Type 0 where
  pub is_active : Bool
  pub reason : String

-- The client's calls.
pub record ProfileClient (E W : Type 0) : Type 0 where
  pub get_profile : W → String → String → Fetched E Profile
  pub patch_status : Profile → ActiveCondition → W → Result E (Unit {0}) × W

pub data ReconcileError (E : Type 0) : Type 0 where
  get_failed status_failed : E → ReconcileError E

module _ {E W : Type 0} (client : ProfileClient E W) where
  -- `setActiveCondition`, and the return that follows it
  unfoldable pub set_active : Profile → ActiveCondition → W → Option (ReconcileError E) × W
  set_active profile condition w =
      let (r, w') = client.patch_status profile condition w in
      (elim r [ ok _ ↦ none | err e ↦ some (status_failed e) ], w')

  -- what follows the validation
  unfoldable pub report_checked :
      Profile → Result ProfileError (Unit {0}) → W → Option (ReconcileError E) × W
  unfolding set_active
  report_checked profile (err e) w =
      set_active profile (record { is_active = false; reason = "InvalidSpec" }) w
  report_checked profile (ok _) w =
      set_active profile (record { is_active = true; reason = "Active" }) w

  -- `Reconcile`
  unfoldable pub reconcile : Request → W → Option (ReconcileError E) × W
  unfolding report_checked
  reconcile req w = elim (client.get_profile w req.namespace req.name) [
    | absent ↦ (none, w)
    | broken e ↦ (some (get_failed e), w)
    | fetched profile ↦ report_checked profile (validate_profile (some profile)) w
  ]

-- what `SetupWithManager` makes of a change
unfoldable pub requests_on : Change → List Request
requests_on (profile_changed namespace name) = record { namespace = namespace; name = name } ∷ []
requests_on (pool_changed namespace name) = []
requests_on (policy_changed namespace name) = []
requests_on (namespace_changed name) = []
