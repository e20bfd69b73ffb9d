-- ===== src/Profile.antt =====
-- controllers/dnscacheprofile_controller.go: the validation of cache profiles, and their
-- controller.
pub mod Bounds
pub mod Reconcile
use astradns_operator.Base.{
  ℤ, pos, Bool, true, false, Option, none, some, ltb_ℤ, eqb_ℤ, Result, ok, err, ◌>>=◌, ◌>>◌,
  if◌then◌else◌,
}
use astradns_operator.Api.{Profile}

pub data ProfileError : Type 0 where
  nil_profile negative_max_entries negative_min_seconds negative_max_seconds : ProfileError
  negative_ttl_seconds negative_threshold : ProfileError
  inverted_ttl : ℤ → ℤ → ProfileError

-- `if value < 0 { return error }`
abbrev refuse_negative : ℤ → ProfileError → Result ProfileError (Unit {0})
refuse_negative value e = if ltb_ℤ value (pos 0) then err e else ok tt

-- `int(value)` with the default for a zero
abbrev or_default : ℤ → ℤ → ℤ
or_default value default_value = if eqb_ℤ value (pos 0) then default_value else value

-- `validateDNSCacheProfile`
unfoldable pub validate_profile : Option Profile → Result ProfileError (Unit {0})
validate_profile none = err nil_profile
validate_profile (some profile) = do
  refuse_negative profile.spec.max_entries negative_max_entries
  refuse_negative profile.spec.positive_min negative_min_seconds
  refuse_negative profile.spec.positive_max negative_max_seconds
  refuse_negative profile.spec.negative_ttl negative_ttl_seconds
  refuse_negative profile.spec.prefetch_threshold negative_threshold
  let min_ttl = or_default profile.spec.positive_min (pos 60)
  let max_ttl = or_default profile.spec.positive_max (pos 300)
  if ltb_ℤ max_ttl min_ttl then err (inverted_ttl min_ttl max_ttl) else ok tt
