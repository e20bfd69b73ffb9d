-- ===== src/Profile/Bounds.antt =====
-- A validated profile gives the engine a cache with positive sizes and an ordered TTL range.
use astradns_operator.Base.{pos, ◌≤ℤ◌, some, ok, ◌≡◌, ◌↔◌, arith}
use astradns_operator.Api.{Profile}
use astradns_operator.Engine.{CacheConfig}
use astradns_operator.Generator.{default_cache, apply_profile}
use astradns_operator.Profile.{validate_profile}

-- What an engine needs of its cache settings.
pub record IsSane (c : CacheConfig) : Type 0 where
  pub max_entries : pos 1 ≤ℤ c.max_entries
  pub ttl_min : pos 1 ≤ℤ c.positive_ttl_min
  pub ttl_range : c.positive_ttl_min ≤ℤ c.positive_ttl_max
  pub negative_ttl : pos 1 ≤ℤ c.negative_ttl
  pub threshold : pos 1 ≤ℤ c.prefetch_threshold

pub record IsNonNegative (profile : Profile) : Type 0 where
  pub max_entries : pos 0 ≤ℤ profile.spec.max_entries
  pub positive_min : pos 0 ≤ℤ profile.spec.positive_min
  pub positive_max : pos 0 ≤ℤ profile.spec.positive_max
  pub negative_ttl : pos 0 ≤ℤ profile.spec.negative_ttl
  pub prefetch_threshold : pos 0 ≤ℤ profile.spec.prefetch_threshold

profile_sound :
    (profile : Profile)
    → validate_profile (some profile) ≡ ok tt
    → IsNonNegative profile × IsSane (apply_profile default_cache (some profile))
unfolding validate_profile apply_profile
profile_sound profile h = (
  record {
    max_entries = ground arith;
    positive_min = ground arith;
    positive_max = ground arith;
    negative_ttl = ground arith;
    prefetch_threshold = ground arith;
  },
  record {
    max_entries = ground arith;
    ttl_min = ground arith;
    ttl_range = ground arith;
    negative_ttl = ground arith;
    threshold = ground arith;
  },
)

profile_complete :
    (profile : Profile)
    → IsNonNegative profile
    → IsSane (apply_profile default_cache (some profile))
    → validate_profile (some profile) ≡ ok tt
unfolding validate_profile apply_profile
profile_complete profile n s = ground (arith, s.ttl_range)

-- The controller accepts a profile exactly when no field is negative and the cache settings that
-- the generator makes of it are positive with an ordered TTL range, its zero fields replaced by
-- the generator's defaults.
pub validate_profile_iff :
    (profile : Profile)
    → (validate_profile (some profile) ≡ ok tt)
      ↔ (IsNonNegative profile × IsSane (apply_profile default_cache (some profile)))
validate_profile_iff profile = (profile_sound profile, λ (n, s). profile_complete profile n s)
