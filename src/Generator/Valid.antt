-- ===== src/Generator/Valid.antt =====
-- A pool that the reconciler's validation accepts is one that the generator converts, and the
-- configuration keeps within the ranges that an engine takes.
use astradns_operator.Base.{
  ℕ, suc, ℤ, pos, ◌≤ℤ◌, String, true, false, Option, some, List, [], ◌∷◌, map, ok, is_empty, ◌≡◌,
  ◌≢◌, ◌⊎◌, refl, inl, inr, All, All-imp, eq_iff, arith, Option-cases,
}
use astradns_operator.Base.Sort.{sort_stable, All-sort_stable, sort_stable-ne-nil}
use astradns_operator.Text.{trim_space, to_lower}
use astradns_operator.Text.Trim.{trim_space_idem}
use astradns_operator.Platform.{Platform}
use astradns_operator.Api.{Upstream, Pool, Profile}
use astradns_operator.Engine.{UpstreamConfig, EngineConfig}
use astradns_operator.Pool.Validate
use astradns_operator.Pool.Validate.{
  parse_transport, parse_dnssec_mode, is_valid_address, effective_port, validate_pool,
}
use astradns_operator.Pool.Validate.Sound.{key_of, IsValidUpstream, validate_pool_iff}
use astradns_operator.Generator.{
  default_port, normalize_weight, normalize_preference, upstream_less, normalize_transport,
  normalize_dnssec_mode, resolve_worker_threads, convert_upstream, convert_upstreams,
  convert_filter, apply_profile, default_cache, generate,
}
use astradns_operator.Generator.Order.{config_of}

-- What every engine may rely on in an upstream.
pub record IsInRange (u : UpstreamConfig) : Type 0 where
  pub address : u.address ≢ ""
  pub port_low : pos 1 ≤ℤ u.port
  pub port_high : u.port ≤ℤ pos 65535
  pub transport : (u.transport ≡ "dns") ⊎ (u.transport ≡ "dot") ⊎ (u.transport ≡ "doh")
  pub plain_without_name : u.transport ≡ "dns" → u.tls_server_name ≡ ""
  pub weight_low : pos 1 ≤ℤ u.weight
  pub weight_high : u.weight ≤ℤ pos 100
  pub preference_low : pos 1 ≤ℤ u.preference
  pub preference_high : u.preference ≤ℤ pos 1000

pub record IsWellFormed (c : EngineConfig) : Type 0 where
  pub some_upstream : c.upstreams ≢ []
  pub each : All IsInRange c.upstreams
  pub threads_low : pos 1 ≤ℤ c.worker_threads
  pub threads_high : c.worker_threads ≤ℤ pos 256
  pub dnssec_mode :
      (c.dnssec_mode ≡ "off") ⊎ (c.dnssec_mode ≡ "process") ⊎ (c.dnssec_mode ≡ "validate")

map-ne-nil {ℓ κ} : {A : Type ℓ} {B : Type κ} (f : A → B) (l : List A) → l ≢ [] → map f l ≢ []
map-ne-nil f [] h = absurd (h refl)
map-ne-nil f (x ∷ xs) h = cc

pub All-map {ℓ κ μ} :
    {A : Type ℓ} {B : Type κ} (P : B → Type μ) (f : A → B) (l : List A)
    → All (λ x. P (f x)) l
    → All P (map f l)
All-map P f [] h = tt
All-map P f (x ∷ xs) (h, hs) = (h, All-map P f xs hs)

is_empty_of_ne {ℓ} : {A : Type ℓ} (l : List A) → l ≢ [] → is_empty l ≡ false
is_empty_of_ne [] h = absurd (h refl)
is_empty_of_ne (x ∷ xs) h = refl

module _ (p : Platform) where
  -- The two readings of a transport agree where the validation accepts it.
  pub normalize-parse_transport :
      (raw t : String) → parse_transport p raw ≡ some t → normalize_transport p raw ≡ t
  unfolding parse_transport normalize_transport
  normalize-parse_transport raw t h =
      let trimmed = to_lower p.lower_table (trim_space raw) in
      ground (
        arith,
        eq_iff trimmed "",
        eq_iff trimmed "dns",
        eq_iff trimmed "dot",
        eq_iff trimmed "doh",
        eq_iff "" "dot",
        eq_iff "" "doh",
        eq_iff "dns" "dot",
        eq_iff "dns" "doh",
      )

  valid_address_nonempty : (s : String) → is_valid_address p s ≡ true → trim_space s ≢ ""
  unfolding is_valid_address
  valid_address_nonempty s h = ground (arith, eq_iff (trim_space s) "")

  pub transport_cases :
      (raw : String)
      → (normalize_transport p raw ≡ "dns")
        ⊎ (normalize_transport p raw ≡ "dot")
        ⊎ (normalize_transport p raw ≡ "doh")
  unfolding normalize_transport
  transport_cases raw = ground arith

  pub mode_cases :
      (raw : String)
      → (normalize_dnssec_mode p raw ≡ "off")
        ⊎ (normalize_dnssec_mode p raw ≡ "process")
        ⊎ (normalize_dnssec_mode p raw ≡ "validate")
  unfolding normalize_dnssec_mode
  mode_cases raw = ground arith

  default_port_lem : (t : String) → default_port t ≡ Validate.default_port t
  unfolding default_port Validate.default_port
  default_port_lem t = refl

  -- The port of the configuration is the one that the validation looked at.
  config_port : (u : Upstream) → IsValidUpstream p u → (config_of p u).port ≡ (key_of p u).port
  unfolding effective_port
  config_port u v = elim (Option-cases (parse_transport p u.transport)) [
    | inl bad ↦ absurd (v.transport bad)
    | inr (t, known) ↦
        ground (arith, known, normalize-parse_transport u.transport t known, default_port_lem t)
  ]

  config_transport :
      (u : Upstream) → IsValidUpstream p u → (config_of p u).transport ≡ (key_of p u).transport
  config_transport u v = elim (Option-cases (parse_transport p u.transport)) [
    | inl bad ↦ absurd (v.transport bad)
    | inr (t, known) ↦ rw known (normalize-parse_transport u.transport t known)
  ]

  config_of-IsInRange : (u : Upstream) → IsValidUpstream p u → IsInRange (config_of p u)
  config_of-IsInRange u v = record {
    address = λ e. valid_address_nonempty (trim_space u.address) v.address (rw trim_space_idem e);
    port_low = rw (config_port u v) v.port_low;
    port_high = rw (config_port u v) v.port_high;
    transport = transport_cases u.transport;
    plain_without_name = ground (arith, eq_iff (config_of p u).transport "dns");
    weight_low = unfold normalize_weight in ground arith;
    weight_high = unfold normalize_weight in ground (arith, v.weight_high);
    preference_low = unfold normalize_preference in ground arith;
    preference_high = unfold normalize_preference in ground (arith, v.preference_high);
  }

  convert_upstreams_complete :
      (i : ℕ) (us : List Upstream)
      → All (λ u. trim_space u.address ≢ "") us
      → convert_upstreams p i us ≡ ok (map (config_of p) us)
  unfolding convert_upstreams convert_upstream
  convert_upstreams_complete i [] h = refl
  convert_upstreams_complete i (u ∷ us) (h, hs) =
      ground (arith, eq_iff (trim_space u.address) "", convert_upstreams_complete (suc i) us hs)

  pub threads_range :
      (n : ℤ) → (pos 1 ≤ℤ resolve_worker_threads p n) × (resolve_worker_threads p n ≤ℤ pos 256)
  unfolding resolve_worker_threads
  threads_range n = ground arith

  -- A pool that passes the validation is converted, whatever the cache profile: the result has an
  -- upstream, and its ports, weights, preferences, transports, threads and mode are in range.
  pub generate-valid :
      (pool : Pool) (profile : Option Profile)
      → validate_pool p (some pool) ≡ ok tt
      → (c : EngineConfig) × (generate p (some pool) profile ≡ ok c) × IsWellFormed c
  unfolding generate
  generate-valid pool profile accepted =
      let v = (validate_pool_iff p pool).0 accepted in
      let us = pool.spec.upstreams in
      let sorted = sort_stable upstream_less us in
      let valid : All (IsValidUpstream p) sorted = All-sort_stable upstream_less _ us v.each in
      let in_range = All-imp sorted config_of-IsInRange valid in
      let filled = All-imp sorted (λ u (r : IsInRange (config_of p u)). r.address) in_range in
      (
        record {
          upstreams = map (config_of p) sorted;
          cache = apply_profile default_cache profile;
          domain_filter = convert_filter p pool.spec.domain_filter;
          listen_addr = "127.0.0.1";
          listen_port = pos 5354;
          worker_threads = resolve_worker_threads p pool.spec.worker_threads;
          dnssec_mode = normalize_dnssec_mode p pool.spec.dnssec_mode;
        },
        rw (is_empty_of_ne us v.some_upstream, convert_upstreams_complete 0 sorted filled),
        record {
          some_upstream = map-ne-nil _ sorted (sort_stable-ne-nil upstream_less us v.some_upstream);
          each = All-map IsInRange (config_of p) sorted in_range;
          threads_low = (threads_range pool.spec.worker_threads).0;
          threads_high = (threads_range pool.spec.worker_threads).1;
          dnssec_mode = mode_cases pool.spec.dnssec_mode;
        },
      )
