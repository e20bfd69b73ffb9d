-- ===== src/Pool/Validate.antt =====
-- `validateDNSUpstreamPool` and the parsers that it calls.
pub mod Sound
use astradns_operator.Base.{
  ℕ, suc, ℤ, pos, String, Bool, true, false, not, ◌&&◌, ◌||◌, ◌==◌, Option, none, some, List, [],
  ◌∷◌, ltb_ℤ, leb_ℤ, eqb_ℤ, eqb, any, is_empty, Result, ok, err, require, ◌>>=◌, ◌>>◌,
  if◌then◌else◌,
}
use astradns_operator.Text.{trim_space, trim_dot, to_lower, count_dots, digits_and_dots}
use astradns_operator.Platform.{Platform}
use astradns_operator.Api.{Upstream, Pool}

-- The errors that it returns, with the index that their text names.
pub data PoolError : Type 0 where
  nil_pool no_upstreams bad_worker_threads bad_dnssec_mode : PoolError
  spaced_address bad_address bad_transport bad_port tls_name_on_dns : ℕ → PoolError
  bad_tls_name bad_weight bad_preference duplicated : ℕ → PoolError

abbrev pub or_error {ℓ} : {A : Type ℓ} → Option A → PoolError → Result PoolError A
or_error none e = err e
or_error (some a) e = ok a

unfoldable pub default_port : String → ℤ
default_port transport =
    if transport == "dot" then pos 853 else if transport == "doh" then pos 443 else pos 53

unfoldable pub looks_like_invalid_ipv4 : String → Bool
looks_like_invalid_ipv4 value = eqb (count_dots value) 3 && digits_and_dots value

-- The key `transport:address:port` of the duplicate check. The printed text determines the three:
-- a transport has no colon, and the port is what follows the last one.
pub record UpstreamKey : Type 0 where
  pub transport : String
  pub address : String
  pub port : ℤ

unfoldable pub same_key : UpstreamKey → UpstreamKey → Bool
same_key a b = a.transport == b.transport && a.address == b.address && eqb_ℤ a.port b.port

abbrev pub is_known : Option String → Bool
is_known none = false
is_known (some _) = true

module _ (p : Platform) where
  unfoldable pub parse_transport : String → Option String
  parse_transport raw =
      let trimmed = to_lower p.lower_table (trim_space raw) in
      if trimmed == "" || trimmed == "dns"
      then some "dns"
      else if trimmed == "dot"
      then some "dot"
      else if trimmed == "doh"
      then some "doh"
      else none

  unfoldable pub parse_dnssec_mode : String → Option String
  parse_dnssec_mode raw =
      let trimmed = to_lower p.lower_table (trim_space raw) in
      if trimmed == "" || trimmed == "off"
      then some "off"
      else if trimmed == "process"
      then some "process"
      else if trimmed == "validate"
      then some "validate"
      else none

  unfoldable pub is_valid_address : String → Bool
  is_valid_address address =
      let trimmed = trim_space address in
      if trimmed == ""
      then false
      else if p.is_addr trimmed
      then true
      else if looks_like_invalid_ipv4 trimmed
      then false
      else p.is_subdomain trimmed

  -- the port that the key and the range check see
  unfoldable pub effective_port : String → ℤ → ℤ
  effective_port transport port = if eqb_ℤ port (pos 0) then default_port transport else port

  -- the block on a TLS server name that is not empty
  unfoldable pub is_valid_tls_name : String → Bool
  is_valid_tls_name tls_server_name =
      let name = trim_dot tls_server_name in
      not (name == "") && p.is_subdomain (to_lower p.lower_table name)

  -- one round of the loop: the key that it adds
  unfoldable pub check_upstream : ℕ → List UpstreamKey → Upstream → Result PoolError UpstreamKey
  check_upstream i seen u = do
    let trimmed_address = trim_space u.address
    require (u.address == trimmed_address) (spaced_address i)
    require (is_valid_address trimmed_address) (bad_address i)
    transport ← or_error (parse_transport u.transport) (bad_transport i)
    let port = effective_port transport u.port
    require (ltb_ℤ (pos 0) port && leb_ℤ port (pos 65535)) (bad_port i)
    let tls_server_name = trim_space u.tls_server_name
    require (not (transport == "dns" && not (tls_server_name == ""))) (tls_name_on_dns i)
    require (tls_server_name == "" || is_valid_tls_name tls_server_name) (bad_tls_name i)
    require (leb_ℤ (pos 0) u.weight && leb_ℤ u.weight (pos 100)) (bad_weight i)
    require (leb_ℤ (pos 0) u.preference && leb_ℤ u.preference (pos 1000)) (bad_preference i)
    let key : UpstreamKey = record { transport = transport; address = trimmed_address; port = port }
    require (not (any (same_key key) seen)) (duplicated i)
    ok key

  unfoldable pub check_upstreams :
      ℕ → List UpstreamKey → List Upstream → Result PoolError (Unit {0})
  check_upstreams i seen [] = ok tt
  check_upstreams i seen (u ∷ us) = do
    key ← check_upstream i seen u
    check_upstreams (suc i) (key ∷ seen) us

  unfoldable pub validate_pool : Option Pool → Result PoolError (Unit {0})
  validate_pool none = err nil_pool
  validate_pool (some pool) = do
    require (not (is_empty pool.spec.upstreams)) no_upstreams
    check_upstreams 0 [] pool.spec.upstreams
    require (leb_ℤ (pos 0) pool.spec.worker_threads && leb_ℤ pool.spec.worker_threads (pos 256))
        bad_worker_threads
    require (is_known (parse_dnssec_mode pool.spec.dnssec_mode)) bad_dnssec_mode
