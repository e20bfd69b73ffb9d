-- ===== src/Engine.antt =====
-- The engine-agnostic configuration (engine.EngineConfig of astradns-types), as the generator and
-- the renderers of pkg/engineconfig build and read it.
use astradns_operator.Base.{String, Bool, ℤ, List}

pub record UpstreamConfig : Type 0 where
  pub address : String
  pub port : ℤ
  pub transport : String
  pub tls_server_name : String
  pub weight : ℤ
  pub preference : ℤ

pub record CacheConfig : Type 0 where
  pub max_entries : ℤ
  pub positive_ttl_min : ℤ
  pub positive_ttl_max : ℤ
  pub negative_ttl : ℤ
  pub prefetch_enabled : Bool
  pub prefetch_threshold : ℤ

pub record DomainFilterConfig : Type 0 where
  pub allow : List String
  pub deny : List String
  pub action : String

pub record EngineConfig : Type 0 where
  pub upstreams : List UpstreamConfig
  pub cache : CacheConfig
  pub domain_filter : DomainFilterConfig
  pub listen_addr : String
  pub listen_port : ℤ
  pub worker_threads : ℤ
  pub dnssec_mode : String
