-- ===== src/Samples.antt =====
-- The values that the tests share.
use astradns_operator.Base.{
  ℤ, pos, String, true, false, ◌==◌, ◌||◌, Option, none, some, if◌then◌else◌, List, [], ◌∷◌, ℕ,
}
use astradns_operator.Platform.{Platform}
use astradns_operator.Kube.{Fetched, fetched, absent}
use astradns_operator.Policy.{Policy}
use astradns_operator.Api.{Upstream, DomainFilter, PoolSpec, Pool, Profile}

abbrev pub platform : Platform
platform = record {
  lower_table = λ c. c;
  is_addr = λ s. s == "1.1.1.1" || s == "9.9.9.9";
  is_subdomain = λ s. s == "dns.example" || s == "one.example" || s == "main";
  is_label = λ s. true;
  num_cpu = pos 4;
}

abbrev pub upstream : String → String → ℤ → ℤ → Upstream
upstream address transport weight preference = record {
  address = address;
  port = pos 0;
  transport = transport;
  tls_server_name = "";
  weight = weight;
  preference = preference;
}

abbrev pub no_filter : DomainFilter
no_filter = record { allow = []; deny = []; action = "" }

abbrev pub spec_of : List Upstream → PoolSpec
spec_of upstreams = record {
  upstreams = upstreams;
  worker_threads = pos 0;
  dnssec_mode = "Validate";
  domain_filter = no_filter;
}

abbrev pub plain_pool : String → ℕ → Option String → Pool
plain_pool name second version = record {
  name = name;
  namespace = "dns";
  resource_version = "7";
  creation = some second;
  annotations = elim version [
    | none ↦ none
    | some v ↦ some (("dns.astradns.com/initial-resource-version", v) ∷ [])
  ];
  spec = spec_of (upstream "1.1.1.1" "dns" (pos 1) (pos 100) ∷ []);
}

-- Two encrypted upstreams, the second preferred.
abbrev pub secure_pool : Pool
secure_pool = record (plain_pool "secure" 5 none) {
  spec = spec_of (
      upstream "1.1.1.1" " DoT" (pos 1) (pos 100)
      ∷ upstream "dns.example" "doh" (pos 10) (pos 50)
      ∷ []);
}

abbrev pub profile : Profile
profile = record {
  name = "default";
  namespace = "dns";
  spec = record {
    max_entries = pos 500;
    positive_min = pos 0;
    positive_max = pos 120;
    negative_ttl = pos 0;
    prefetch_enabled = true;
    prefetch_threshold = pos 3;
  };
}

abbrev pub edge : Policy
edge = record {
  name = "edge";
  namespace = "dns";
  uid = "u1";
  is_deleted = false;
  finalizers = [];
  selector_namespaces = "team-a" ∷ "team-b" ∷ [];
  upstream_pool_ref = "main";
  cache_profile_ref = "";
}

abbrev pub rival : Policy
rival = record edge { name = "rival"; uid = "u2" }

abbrev pub main_pool : String → String → Fetched String Pool
main_pool namespace name = if name == "main" then fetched secure_pool else absent

abbrev pub no_profile : String → String → Fetched String Profile
no_profile namespace name = absent
