-- ===== src/Generator/Fixpoint.antt =====
-- What the generator writes needs no renderer's normalisation.
use astradns_operator.Base.{
  pos, String, Option, some, ok, ◌≡◌, ◌≢◌, refl, sym, subst, eq_iff, All, All-imp, arith,
}
use astradns_operator.Base.Sort.{sort_stable, All-sort_stable}
use astradns_operator.Text.{trim_space, trim_dot}
use astradns_operator.Text.Trim.{
  trim_space_idem, IsSpaceFree, trim_space_of_IsSpaceFree, trim_dot-IsSpaceFree,
}
use astradns_operator.Platform.{Platform}
use astradns_operator.Api.{Upstream, Pool, Profile}
use astradns_operator.Engine.{EngineConfig}
use astradns_operator.Generator.{
  default_port, normalize_weight, normalize_preference, upstream_less, normalize_transport,
  normalize_dnssec_mode, resolve_worker_threads, default_tls_server_name, generate,
}
use astradns_operator.Generator.Order.{config_of, generate-eq-ok}
use astradns_operator.Generator.Valid.{transport_cases, mode_cases, threads_range, All-map}
use astradns_operator.Renderer.Unbound
use astradns_operator.Renderer.CoreDns
use astradns_operator.Renderer.PowerDns
use astradns_operator.Renderer.Normal.{IsNormalUpstream, IsNormal, normalize_config_of_IsNormal}

module _ (p : Platform) where
  -- A name taken from an address without spaces has none to trim.
  default_name_trimmed :
      (a : String)
      → IsSpaceFree a
      → trim_space (default_tls_server_name p a) ≡ default_tls_server_name p a
  unfolding default_tls_server_name
  default_name_trimmed a free = ground (
    arith,
    trim_space_of_IsSpaceFree a free,
    trim_space_of_IsSpaceFree (trim_dot a) (trim_dot-IsSpaceFree a free),
    trim_space_of_IsSpaceFree "" tt,
  )

  unbound_name : (a : String) → Unbound.default_tls_server_name p a ≡ default_tls_server_name p a
  unfolding default_tls_server_name Unbound.default_tls_server_name
  unbound_name a = refl

  config_port-ne-zero : (u : Upstream) → (config_of p u).port ≢ pos 0
  unfolding default_port
  config_port-ne-zero u = ground arith

  config_name_trimmed :
      (u : Upstream)
      → IsSpaceFree u.address
      → trim_space (config_of p u).tls_server_name ≡ (config_of p u).tls_server_name
  config_name_trimmed u free = ground (
    arith,
    trim_space_idem u.tls_server_name,
    trim_space_of_IsSpaceFree u.address free,
    default_name_trimmed u.address free,
    trim_space_of_IsSpaceFree "" tt,
  )

  config_of-IsNormal : (u : Upstream) → IsSpaceFree u.address → IsNormalUpstream p (config_of p u)
  config_of-IsNormal u free = record {
    transport = transport_cases p u.transport;
    port = config_port-ne-zero u;
    trimmed = config_name_trimmed u free;
    plain_without_name = ground (arith, eq_iff (config_of p u).transport "dns");
    named = λ encrypted blank. ground (
      arith,
      eq_iff (normalize_transport p u.transport) "dns",
      eq_iff (trim_space u.tls_server_name) "",
      unbound_name (trim_space u.address),
    );
    weight = unfold normalize_weight in ground arith;
    preference = unfold normalize_preference in ground arith;
  }

  pub generate-settings :
      (pool : Pool) (profile : Option Profile) (c : EngineConfig)
      → generate p (some pool) profile ≡ ok c
      → (c.worker_threads ≡ resolve_worker_threads p pool.spec.worker_threads)
        × (c.dnssec_mode ≡ normalize_dnssec_mode p pool.spec.dnssec_mode)
  unfolding generate
  generate-settings pool profile c h = ground arith

  generate-IsNormal :
      (pool : Pool) (profile : Option Profile) (c : EngineConfig)
      → All (λ u. IsSpaceFree u.address) pool.spec.upstreams
      → generate p (some pool) profile ≡ ok c
      → IsNormal p c
  generate-IsNormal pool profile c free h =
      let us = pool.spec.upstreams in
      let sorted = sort_stable upstream_less us in
      let normal = All-imp sorted config_of-IsNormal (All-sort_stable upstream_less _ us free) in
      record {
        each =
            subst (All (IsNormalUpstream p)) (sym (generate-eq-ok p pool profile c h).0)
              (All-map (IsNormalUpstream p) (config_of p) sorted normal);
        threads_low =
            rw (generate-settings pool profile c h).0 (threads_range p pool.spec.worker_threads).0;
        threads_high =
            rw (generate-settings pool profile c h).0 (threads_range p pool.spec.worker_threads).1;
        dnssec_mode =
            rw (generate-settings pool profile c h).1 (mode_cases p pool.spec.dnssec_mode);
      }

  -- Where no address of the pool holds a space, each of the three renderers' normalisations leaves
  -- the generated configuration as it is.
  pub normalize-generate :
      (pool : Pool) (profile : Option Profile) (c : EngineConfig)
      → All (λ u. IsSpaceFree u.address) pool.spec.upstreams
      → generate p (some pool) profile ≡ ok c
      → (Unbound.normalize_config p c ≡ c)
        × (CoreDns.normalize_config p c ≡ c)
        × (PowerDns.normalize_config p c ≡ c)
  normalize-generate pool profile c free h =
      normalize_config_of_IsNormal p c (generate-IsNormal pool profile c free h)
