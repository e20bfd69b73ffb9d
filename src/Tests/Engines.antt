-- ===== src/Tests/Engines.antt =====
-- The generator and the renderers.
use mathlib.Core.List.{Perm}
use astradns_operator.Base.{ℤ, none, some, map, ok, ◌≡◌, refl, ◌↔◌, ◌⊎◌, any, arith}
use astradns_operator.Base.Sort.{select, same_rank, IsSortedBy, sort_stable}
use astradns_operator.Text.{trim_space, trim_dot, to_lower, is_space, parse_int64, count_dots}
use astradns_operator.Api.{Upstream}
use astradns_operator.Engine.{EngineConfig}
use astradns_operator.Pool.Validate.{
  validate_pool, check_upstreams, check_upstream, is_valid_address, is_valid_tls_name,
  parse_transport, parse_dnssec_mode, effective_port, same_key, default_port as controller_port,
  looks_like_invalid_ipv4,
}
use astradns_operator.Pool.Validate.Sound.{IsValidPool, validate_pool_iff}
use astradns_operator.Generator
use astradns_operator.Generator.{
  generate, convert_upstreams, convert_upstream, convert_filter, apply_profile, upstream_less,
  normalize_preference, normalize_weight, normalize_transport, normalize_dnssec_mode,
  normalize_action, resolve_worker_threads, default_tls_server_name,
}
use astradns_operator.Generator.Order.{config_less, config_of, generate-order}
use astradns_operator.Generator.Valid.{IsWellFormed, generate-valid}
use astradns_operator.Generator.Fixpoint.{normalize-generate}
use astradns_operator.Renderer.Unbound
use astradns_operator.Renderer.CoreDns
use astradns_operator.Renderer.PowerDns
use astradns_operator.Renderer.Supported.{AllUse, IsForCoreDns, generate-supported_iff}
use astradns_operator.Samples.{platform, secure_pool, profile}

-- Opens what the tests run.
pipeline : Unit {0}
unfolding trim_space trim_dot to_lower is_space sort_stable any count_dots validate_pool
    check_upstreams check_upstream is_valid_address is_valid_tls_name parse_transport
    parse_dnssec_mode effective_port same_key controller_port looks_like_invalid_ipv4 generate
    convert_upstreams convert_upstream convert_filter apply_profile upstream_less
    normalize_preference normalize_weight normalize_transport normalize_dnssec_mode normalize_action
    resolve_worker_threads default_tls_server_name Generator.default_port
pipeline = tt

accepted : validate_pool platform (some secure_pool) ≡ ok tt
unfolding pipeline
accepted = refl

generated : EngineConfig
generated = (generate-valid platform secure_pool (some profile) accepted).0

generated_lem : generate platform (some secure_pool) (some profile) ≡ ok generated
unfolding generated
generated_lem = (generate-valid platform secure_pool (some profile) accepted).1

validate_pool_iff_example :
    (validate_pool platform (some secure_pool) ≡ ok tt) ↔ IsValidPool platform secure_pool
validate_pool_iff_example = validate_pool_iff platform secure_pool

generate-valid_example :
    (c : EngineConfig) × (generate platform (some secure_pool) (some profile) ≡ ok c)
    × IsWellFormed c
generate-valid_example = generate-valid platform secure_pool (some profile) accepted

generate-order_example :
    IsSortedBy config_less generated.upstreams
    × Perm generated.upstreams (map (config_of platform) secure_pool.spec.upstreams)
    × ((u : Upstream)
        → select (same_rank config_less (config_of platform u)) generated.upstreams
          ≡ select
              (same_rank config_less (config_of platform u))
              (map (config_of platform) secure_pool.spec.upstreams))
generate-order_example = generate-order platform secure_pool (some profile) generated generated_lem

normalize-generate_example :
    (Unbound.normalize_config platform generated ≡ generated)
    × (CoreDns.normalize_config platform generated ≡ generated)
    × (PowerDns.normalize_config platform generated ≡ generated)
unfolding is_space
normalize-generate_example =
    normalize-generate platform secure_pool (some profile) generated (ground arith) generated_lem

generate-supported_iff_example :
    ((Unbound.validate_compatibility (Unbound.normalize_config platform generated) ≡ ok tt)
      ↔ (AllUse platform "dns" secure_pool ⊎ AllUse platform "dot" secure_pool))
    × ((PowerDns.validate_compatibility (PowerDns.normalize_config platform generated) ≡ ok tt)
        ↔ AllUse platform "dns" secure_pool)
    × ((CoreDns.validate_compatibility (CoreDns.normalize_config platform generated) ≡ ok tt)
        ↔ IsForCoreDns platform secure_pool)
generate-supported_iff_example =
    generate-supported_iff platform secure_pool (some profile) generated accepted generated_lem

number_read : (parse_int64 "-42" ≡ some (ℤ.negsuc 41)) × (parse_int64 "4_2" ≡ none)
unfolding parse_int64
number_read = (refl, refl)
