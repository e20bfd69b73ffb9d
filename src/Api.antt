-- ===== src/Api.antt =====
-- The custom resources (api/v1alpha1 of astradns-types, schemas in config/crd/bases), with the
-- fields that the operator reads.
use astradns_operator.Dict.{Dict}
use astradns_operator.Base.{String, Bool, ℕ, ℤ, Option, List}

pub record Upstream : Type 0 where
  pub address : String
  pub port : ℤ
  pub transport : String
  pub tls_server_name : String
  pub weight : ℤ
  pub preference : ℤ

pub record DomainFilter : Type 0 where
  pub allow : List String
  pub deny : List String
  pub action : String

pub record PoolSpec : Type 0 where
  pub upstreams : List Upstream
  pub worker_threads : ℤ
  pub dnssec_mode : String
  pub domain_filter : DomainFilter

-- `creation` is `none` at the zero time; `annotations` is `none` at the nil map.
pub record Pool : Type 0 where
  pub name : String
  pub namespace : String
  pub resource_version : String
  pub creation : Option ℕ
  pub annotations : Option (Dict String)
  pub spec : PoolSpec

pub record ProfileSpec : Type 0 where
  pub max_entries : ℤ
  pub positive_min : ℤ
  pub positive_max : ℤ
  pub negative_ttl : ℤ
  pub prefetch_enabled : Bool
  pub prefetch_threshold : ℤ

pub record Profile : Type 0 where
  pub name : String
  pub namespace : String
  pub spec : ProfileSpec
