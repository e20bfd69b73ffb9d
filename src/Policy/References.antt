-- ===== src/Policy/References.antt =====
-- `validateReferences` and `validatePolicyRefName`.
pub mod Sound
use astradns_operator.Base.{
  ℕ, suc, String, Bool, true, false, not, ◌==◌, Option, none, some, List, [], ◌∷◌, any, is_empty,
  Result, ok, err, map_err, require, ◌>>=◌, ◌>>◌, if◌then◌else◌,
}
use astradns_operator.Text.{trim_space}
use astradns_operator.Platform.{Platform}
use astradns_operator.Kube.{Fetched, fetched, absent, broken}
use astradns_operator.Api.{Pool, Profile}
use astradns_operator.Policy.{Policy}

-- The errors of `validatePolicyRefName`, which name the field that its caller gives.
pub data RefNameError : Type 0 where
  ref_required ref_blank ref_spaced ref_invalid : RefNameError

-- The errors of `validateReferences`, with the index that the text names.
pub data ReferenceError {ℓ} (E : Type ℓ) : Type ℓ where
  nil_policy no_namespaces : ReferenceError E
  empty_namespace spaced_namespace bad_namespace duplicated_namespace : ℕ → ReferenceError E
  bad_pool_ref bad_profile_ref : RefNameError → ReferenceError E
  pool_missing profile_missing : ReferenceError E
  pool_failed profile_failed : E → ReferenceError E

module _ (p : Platform) where
  unfoldable pub validate_ref_name : String → Bool → Result RefNameError String
  validate_ref_name raw required =
      let trimmed = trim_space raw in
      if trimmed == ""
      then (if required then err ref_required else if not (raw == "") then err ref_blank else ok "")
      else if not (raw == trimmed)
      then err ref_spaced
      else if not (p.is_subdomain trimmed)
      then err ref_invalid
      else ok trimmed

  module _ {ℓ} {E : Type ℓ} where
    -- one round of the loop over the selector: the name that it adds
    unfoldable pub check_namespace : ℕ → List String → String → Result (ReferenceError E) String
    check_namespace i seen namespace = do
      let trimmed = trim_space namespace
      require (not (trimmed == "")) (empty_namespace i)
      require (namespace == trimmed) (spaced_namespace i)
      require (p.is_label trimmed) (bad_namespace i)
      require (not (any (λ s. s == trimmed) seen)) (duplicated_namespace i)
      ok trimmed

    unfoldable pub check_namespaces :
        ℕ → List String → List String → Result (ReferenceError E) (Unit {0})
    check_namespaces i seen [] = ok tt
    check_namespaces i seen (namespace ∷ namespaces) = do
      trimmed ← check_namespace i seen namespace
      check_namespaces (suc i) (trimmed ∷ seen) namespaces

    -- the two ends of a `Get`
    abbrev pub require_found :
        {A : Type 0}
        → Fetched E A
        → ReferenceError E
        → (E → ReferenceError E)
        → Result (ReferenceError E) (Unit {0})
    require_found (fetched a) missing failure = ok tt
    require_found absent missing failure = err missing
    require_found (broken e) missing failure = err (failure e)

    -- `validateReferences`, over the client's `Get` of a pool and of a profile by namespace and name
    unfoldable pub validate_references :
        (String → String → Fetched E Pool)
        → (String → String → Fetched E Profile)
        → Option Policy
        → Result (ReferenceError E) (Unit {0})
    validate_references get_pool get_profile none = err nil_policy
    validate_references get_pool get_profile (some policy) = do
      require (not (is_empty policy.selector_namespaces)) no_namespaces
      check_namespaces 0 [] policy.selector_namespaces
      pool_name ← map_err bad_pool_ref (validate_ref_name policy.upstream_pool_ref true)
      require_found (get_pool policy.namespace pool_name) pool_missing pool_failed
      profile_name ← map_err bad_profile_ref (validate_ref_name policy.cache_profile_ref false)
      if profile_name == ""
          then ok tt
          else require_found (get_profile policy.namespace profile_name) profile_missing
              profile_failed
