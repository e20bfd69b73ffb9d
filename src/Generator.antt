-- ===== src/Generator.antt =====
-- pkg/engineconfig/defaultgen.go: a pool and a profile become an engine configuration.
pub mod Order
pub mod Valid
pub mod Fixpoint
use astradns_operator.Base.{
  ℕ, suc, ℤ, pos, String, Bool, true, not, ◌&&◌, ◌||◌, ◌==◌, Option, none, some, List, [], ◌∷◌,
  ltb_ℤ, leb_ℤ, eqb_ℤ, is_empty, Result, ok, err, ◌>>=◌, if◌then◌else◌,
}
use astradns_operator.Base.Sort.{sort_stable}
use astradns_operator.Text.{trim_space, trim_dot, to_lower}
use astradns_operator.Platform.{Platform}
use astradns_operator.Api.{Upstream, DomainFilter, Pool, Profile}
use astradns_operator.Engine.{UpstreamConfig, CacheConfig, DomainFilterConfig, EngineConfig}

pub data GenerateError : Type 0 where
  nil_pool no_upstreams : GenerateError
  empty_address : ℕ → GenerateError

unfoldable pub default_port : String → ℤ
default_port transport =
    if transport == "dot" then pos 853 else if transport == "doh" then pos 443 else pos 53

unfoldable pub normalize_weight : ℤ → ℤ
normalize_weight weight = if leb_ℤ weight (pos 0) then pos 1 else weight

unfoldable pub normalize_preference : ℤ → ℤ
normalize_preference preference = if leb_ℤ preference (pos 0) then pos 100 else preference

-- the comparison of `sort.SliceStable`
unfoldable pub upstream_less : Upstream → Upstream → Bool
upstream_less u v =
    let left_preference = normalize_preference u.preference in
    let right_preference = normalize_preference v.preference in
    if not (eqb_ℤ left_preference right_preference)
    then ltb_ℤ left_preference right_preference
    else ltb_ℤ (normalize_weight v.weight) (normalize_weight u.weight)

abbrev pub default_cache : CacheConfig
default_cache = record {
  max_entries = pos 100000;
  positive_ttl_min = pos 60;
  positive_ttl_max = pos 300;
  negative_ttl = pos 30;
  prefetch_enabled = true;
  prefetch_threshold = pos 10;
}

-- `if value > 0 { field = value }`
abbrev override : ℤ → ℤ → ℤ
override value field = if ltb_ℤ (pos 0) value then value else field

-- the part of `Generate` behind `if profile == nil`
unfoldable pub apply_profile : CacheConfig → Option Profile → CacheConfig
apply_profile cache none = cache
apply_profile cache (some profile) = record {
  max_entries = override profile.spec.max_entries cache.max_entries;
  positive_ttl_min = override profile.spec.positive_min cache.positive_ttl_min;
  positive_ttl_max = override profile.spec.positive_max cache.positive_ttl_max;
  negative_ttl = override profile.spec.negative_ttl cache.negative_ttl;
  prefetch_enabled = profile.spec.prefetch_enabled;
  prefetch_threshold = override profile.spec.prefetch_threshold cache.prefetch_threshold;
}

module _ (p : Platform) where
  unfoldable pub normalize_transport : String → String
  normalize_transport transport =
      let trimmed = to_lower p.lower_table (trim_space transport) in
      if trimmed == "dot" then "dot" else if trimmed == "doh" then "doh" else "dns"

  unfoldable pub normalize_dnssec_mode : String → String
  normalize_dnssec_mode mode =
      let trimmed = to_lower p.lower_table (trim_space mode) in
      if trimmed == "process"
      then "process"
      else if trimmed == "validate"
      then "validate"
      else "off"

  unfoldable pub normalize_action : String → String
  normalize_action action =
      let trimmed = to_lower p.lower_table (trim_space action) in
      if trimmed == "nxdomain" then "nxdomain" else "refused"

  unfoldable pub resolve_worker_threads : ℤ → ℤ
  resolve_worker_threads value =
      if ltb_ℤ (pos 256) value
      then pos 256
      else if ltb_ℤ (pos 0) value
      then value
      else if leb_ℤ p.num_cpu (pos 0)
      then pos 2
      else if ltb_ℤ (pos 256) p.num_cpu
      then pos 256
      else p.num_cpu

  unfoldable pub default_tls_server_name : String → String
  default_tls_server_name address =
      let trimmed = trim_dot (trim_space address) in
      if trimmed == "" then "" else if p.is_addr trimmed then "" else trimmed

  -- one round of the loop over the sorted upstreams
  unfoldable pub convert_upstream : ℕ → Upstream → Result GenerateError UpstreamConfig
  convert_upstream i u =
      let address = trim_space u.address in
      let transport = normalize_transport u.transport in
      let given = trim_space u.tls_server_name in
      let named =
        if not (transport == "dns") && given == ""
        then default_tls_server_name address
        else given in
      if address == ""
      then err (empty_address i)
      else ok (record {
        address = address;
        port = if eqb_ℤ u.port (pos 0) then default_port transport else u.port;
        transport = transport;
        tls_server_name = if transport == "dns" then "" else named;
        weight = normalize_weight u.weight;
        preference = normalize_preference u.preference;
      })

  unfoldable pub convert_upstreams : ℕ → List Upstream → Result GenerateError (List UpstreamConfig)
  convert_upstreams i [] = ok []
  convert_upstreams i (u ∷ us) = do
    config ← convert_upstream i u
    configs ← convert_upstreams (suc i) us
    ok (config ∷ configs)

  unfoldable pub convert_filter : DomainFilter → DomainFilterConfig
  convert_filter f =
      if not (is_empty f.allow) || not (is_empty f.deny)
      then record { allow = f.allow; deny = f.deny; action = normalize_action f.action }
      else record { allow = []; deny = []; action = "" }

  unfoldable pub generate : Option Pool → Option Profile → Result GenerateError EngineConfig
  generate none profile = err nil_pool
  generate (some pool) profile = if is_empty pool.spec.upstreams then err no_upstreams else do
    upstreams ← convert_upstreams 0 (sort_stable upstream_less pool.spec.upstreams)
    ok (record {
      upstreams = upstreams;
      cache = apply_profile default_cache profile;
      domain_filter = convert_filter pool.spec.domain_filter;
      listen_addr = "127.0.0.1";
      listen_port = pos 5354;
      worker_threads = resolve_worker_threads pool.spec.worker_threads;
      dnssec_mode = normalize_dnssec_mode pool.spec.dnssec_mode;
    })
