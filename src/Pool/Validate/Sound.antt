-- ===== src/Pool/Validate/Sound.antt =====
-- `validateDNSUpstreamPool` accepts exactly the pools that meet the rules of its messages.
use astradns_operator.Base.{
  ℕ, suc, pos, ◌≤ℤ◌, true, false, some, List, [], ◌∷◌, any, ok, >>=-eq-ok, All-zip, ◌∙◌, subst, ◌≡◌,
  ◌≢◌, ◌↔◌, ◌⊎◌, refl, sym, eq_iff, eqb_ℤ_iff, All, All-imp, arith, Option, none, String,
}
use astradns_operator.Text.{trim_space}
use astradns_operator.Platform.{Platform}
use astradns_operator.Api.{Upstream, Pool}
use astradns_operator.Pool.Validate.{
  UpstreamKey, same_key, parse_transport, parse_dnssec_mode, is_valid_address, effective_port,
  is_valid_tls_name, check_upstream, check_upstreams, validate_pool,
}

same_key_iff : (a b : UpstreamKey) → (same_key a b ≡ true) ↔ (a ≡ b)
unfolding same_key
same_key_iff a b =
    ground
      (arith, eq_iff a.transport b.transport, eq_iff a.address b.address, eqb_ℤ_iff a.port b.port)

any-same_key_iff :
    (k : UpstreamKey) (ks : List UpstreamKey) → (any (same_key k) ks ≡ false) ↔ All (λ j. k ≢ j) ks
unfolding any
any-same_key_iff k [] = ground arith
any-same_key_iff k (j ∷ ks) = ground (arith, same_key_iff k j, any-same_key_iff k ks)

abbrev or_empty : Option String → String
or_empty none = ""
or_empty (some s) = s

module _ (p : Platform) where
  -- What the duplicate check compares.
  abbrev pub key_of : Upstream → UpstreamKey
  key_of u =
      let transport = or_empty (parse_transport p u.transport) in
      record {
        transport = transport;
        address = trim_space u.address;
        port = effective_port p transport u.port;
      }

  -- The rules on one upstream.
  pub record IsValidUpstream (u : Upstream) : Type 0 where
    pub unspaced : u.address ≡ trim_space u.address
    pub address : is_valid_address p (trim_space u.address) ≡ true
    pub transport : parse_transport p u.transport ≢ none
    pub port_low : pos 1 ≤ℤ (key_of u).port
    pub port_high : (key_of u).port ≤ℤ pos 65535
    pub plain_without_name : (key_of u).transport ≡ "dns" → trim_space u.tls_server_name ≡ ""
    pub tls_name :
        (trim_space u.tls_server_name ≡ "")
        ⊎ (is_valid_tls_name p (trim_space u.tls_server_name) ≡ true)
    pub weight_low : pos 0 ≤ℤ u.weight
    pub weight_high : u.weight ≤ℤ pos 100
    pub preference_low : pos 0 ≤ℤ u.preference
    pub preference_high : u.preference ≤ℤ pos 1000

  -- No two upstreams have one key.
  abbrev pub HasDistinctKeys : List Upstream → Type 0
  HasDistinctKeys [] = Unit
  HasDistinctKeys (u ∷ us) = All (λ v. key_of u ≢ key_of v) us × HasDistinctKeys us

  pub record IsValidPool (pool : Pool) : Type 0 where
    pub some_upstream : pool.spec.upstreams ≢ []
    pub each : All IsValidUpstream pool.spec.upstreams
    pub distinct : HasDistinctKeys pool.spec.upstreams
    pub threads_low : pos 0 ≤ℤ pool.spec.worker_threads
    pub threads_high : pool.spec.worker_threads ≤ℤ pos 256
    pub dnssec_mode : parse_dnssec_mode p pool.spec.dnssec_mode ≢ none

  check_upstream_sound :
      (i : ℕ) (seen : List UpstreamKey) (u : Upstream) (key : UpstreamKey)
      → check_upstream p i seen u ≡ ok key
      → IsValidUpstream u × (key ≡ key_of u) × (any (same_key key) seen ≡ false)
  unfolding check_upstream
  check_upstream_sound i seen u key h = ground (
    arith,
    eq_iff u.address (trim_space u.address),
    eq_iff (trim_space u.tls_server_name) "",
    eq_iff key.transport "dns",
  )

  check_upstream_complete :
      (i : ℕ) (seen : List UpstreamKey) (u : Upstream)
      → IsValidUpstream u
      → any (same_key (key_of u)) seen ≡ false
      → check_upstream p i seen u ≡ ok (key_of u)
  unfolding check_upstream
  check_upstream_complete i seen u v h = ground (
    arith,
    eq_iff u.address (trim_space u.address),
    eq_iff (trim_space u.tls_server_name) "",
    eq_iff (key_of u).transport "dns",
    v.plain_without_name,
  )

  -- No key of the list is among the keys seen.
  abbrev IsApart : List UpstreamKey → List Upstream → Type 0
  IsApart seen us = All (λ u. All (λ j. key_of u ≢ j) seen) us

  check_upstreams_sound :
      (i : ℕ) (seen : List UpstreamKey) (us : List Upstream)
      → check_upstreams p i seen us ≡ ok tt
      → All IsValidUpstream us × HasDistinctKeys us × IsApart seen us
  unfolding check_upstreams
  check_upstreams_sound i seen [] h = (tt, tt, tt)
  check_upstreams_sound i seen (u ∷ us) h =
      let (key, checked, rest) = >>=-eq-ok (check_upstream p i seen u) _ h in
      let (valid, same, fresh) = check_upstream_sound i seen u key checked in
      let (vs, ds, apart) = check_upstreams_sound (suc i) (key ∷ seen) us rest in
      (
        (valid, vs),
        (All-imp us (λ v a e. a.0 (sym e ∙ sym same)) apart, ds),
        (
          subst (λ k. All (λ j. k ≢ j) seen) same ((any-same_key_iff key seen).0 fresh),
          All-imp us (λ v a. a.1) apart,
        ),
      )

  check_upstreams_complete :
      (i : ℕ) (seen : List UpstreamKey) (us : List Upstream)
      → All IsValidUpstream us
      → HasDistinctKeys us
      → IsApart seen us
      → check_upstreams p i seen us ≡ ok tt
  unfolding check_upstreams
  check_upstreams_complete i seen [] v d a = refl
  check_upstreams_complete i seen (u ∷ us) (v, vs) (d, ds) (a, as') =
      rw (check_upstream_complete i seen u v ((any-same_key_iff (key_of u) seen).1 a)) (
        check_upstreams_complete (suc i) (key_of u ∷ seen) us vs ds
          (All-zip _ _ us (All-imp us (λ w ne e. ne (sym e)) d) as'))

  All_true : (us : List Upstream) → IsApart [] us
  All_true [] = tt
  All_true (u ∷ us) = (tt, All_true us)

  -- The validation accepts a pool exactly when it has an upstream, each upstream meets the rules, no
  -- two have the same transport, address and port, the threads are 0 to 256 and the mode is known.
  pub validate_pool_iff : (pool : Pool) → (validate_pool p (some pool) ≡ ok tt) ↔ IsValidPool pool
  unfolding validate_pool
  validate_pool_iff pool = (
    λ h. ground (arith, check_upstreams_sound 0 [] pool.spec.upstreams),
    λ v. ground (
      arith,
      check_upstreams_complete 0 [] pool.spec.upstreams v.each v.distinct
          (All_true pool.spec.upstreams),
    ),
  )
