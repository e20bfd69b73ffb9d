-- ===== src/Renderer/Normal.antt =====
-- The configurations that the three renderers leave as they are.
use astradns_operator.Base.{
  pos, ◌≤ℤ◌, String, List, [], ◌∷◌, map, ◌≡◌, ◌≢◌, ◌⊎◌, inl, inr, refl, eq_iff, All, arith,
}
use astradns_operator.Text.{trim_space, to_lower, is_space}
use astradns_operator.Platform.{Platform}
use astradns_operator.Engine.{UpstreamConfig, EngineConfig}
use astradns_operator.Renderer.Unbound
use astradns_operator.Renderer.CoreDns
use astradns_operator.Renderer.PowerDns

module _ (p : Platform) where
  -- An upstream with its defaults filled in.
  pub record IsNormalUpstream (u : UpstreamConfig) : Type 0 where
    pub transport : (u.transport ≡ "dns") ⊎ (u.transport ≡ "dot") ⊎ (u.transport ≡ "doh")
    pub port : u.port ≢ pos 0
    pub trimmed : trim_space u.tls_server_name ≡ u.tls_server_name
    pub plain_without_name : u.transport ≡ "dns" → u.tls_server_name ≡ ""
    pub named :
        u.transport ≢ "dns"
        → u.tls_server_name ≡ ""
        → Unbound.default_tls_server_name p u.address ≡ ""
    pub weight : pos 1 ≤ℤ u.weight
    pub preference : pos 1 ≤ℤ u.preference

  pub record IsNormal (c : EngineConfig) : Type 0 where
    pub each : All IsNormalUpstream c.upstreams
    pub threads_low : pos 1 ≤ℤ c.worker_threads
    pub threads_high : c.worker_threads ≤ℤ pos 256
    pub dnssec_mode :
        (c.dnssec_mode ≡ "off") ⊎ (c.dnssec_mode ≡ "process") ⊎ (c.dnssec_mode ≡ "validate")

  pub transport_fix :
      (t : String) → (t ≡ "dns") ⊎ (t ≡ "dot") ⊎ (t ≡ "doh") → Unbound.normalize_transport p t ≡ t
  unfolding Unbound.normalize_transport trim_space to_lower is_space
  transport_fix t (inl e) = rw e
  transport_fix t (inr (inl e)) = rw e
  transport_fix t (inr (inr e)) = rw e

  pub mode_fix :
      (m : String)
      → (m ≡ "off") ⊎ (m ≡ "process") ⊎ (m ≡ "validate")
      → Unbound.normalize_dnssec_mode p m ≡ m
  unfolding Unbound.normalize_dnssec_mode trim_space to_lower is_space
  mode_fix m (inl e) = rw e
  mode_fix m (inr (inl e)) = rw e
  mode_fix m (inr (inr e)) = rw e

  -- The three packages hold the same code for these.
  module _ (s : String) where
    core_transport : CoreDns.normalize_transport p s ≡ Unbound.normalize_transport p s
    unfolding CoreDns.normalize_transport Unbound.normalize_transport
    core_transport = refl

    pub power_transport : PowerDns.normalize_transport p s ≡ Unbound.normalize_transport p s
    unfolding PowerDns.normalize_transport Unbound.normalize_transport
    power_transport = refl

    pub core_mode : CoreDns.normalize_dnssec_mode p s ≡ Unbound.normalize_dnssec_mode p s
    unfolding CoreDns.normalize_dnssec_mode Unbound.normalize_dnssec_mode
    core_mode = refl

    power_mode : PowerDns.normalize_dnssec_mode p s ≡ Unbound.normalize_dnssec_mode p s
    unfolding PowerDns.normalize_dnssec_mode Unbound.normalize_dnssec_mode
    power_mode = refl

    core_name : CoreDns.default_tls_server_name p s ≡ Unbound.default_tls_server_name p s
    unfolding CoreDns.default_tls_server_name Unbound.default_tls_server_name
    core_name = refl

  unbound_upstream_fix :
      (u : UpstreamConfig) → IsNormalUpstream u → Unbound.normalize_upstream p u ≡ u
  unfolding Unbound.normalize_upstream
  unbound_upstream_fix u n = ground (
    arith,
    transport_fix u.transport n.transport,
    n.trimmed,
    eq_iff u.transport "dns",
    eq_iff u.tls_server_name "",
    n.named,
    n.plain_without_name,
  )

  core_upstream_fix : (u : UpstreamConfig) → IsNormalUpstream u → CoreDns.normalize_upstream p u ≡ u
  unfolding CoreDns.normalize_upstream
  core_upstream_fix u n = ground (
    arith,
    core_transport u.transport,
    core_name u.address,
    transport_fix u.transport n.transport,
    n.trimmed,
    eq_iff u.transport "dns",
    eq_iff u.tls_server_name "",
    n.named,
    n.plain_without_name,
  )

  power_upstream_fix :
      (u : UpstreamConfig) → IsNormalUpstream u → PowerDns.normalize_upstream p u ≡ u
  unfolding PowerDns.normalize_upstream
  power_upstream_fix u n = ground (
    arith,
    power_transport u.transport,
    transport_fix u.transport n.transport,
    n.trimmed,
    eq_iff u.transport "dns",
    eq_iff u.tls_server_name "",
    n.plain_without_name,
  )

  map_fix :
      (f : UpstreamConfig → UpstreamConfig)
      → ((u : UpstreamConfig) → IsNormalUpstream u → f u ≡ u)
      → (us : List UpstreamConfig) → All IsNormalUpstream us
      → map f us ≡ us
  map_fix f fix [] h = refl
  map_fix f fix (u ∷ us) (h, hs) = cc (fix u h, map_fix f fix us hs)

  -- Each renderer leaves a normal configuration as it is.
  pub normalize_config_of_IsNormal :
      (c : EngineConfig)
      → IsNormal c
      → (Unbound.normalize_config p c ≡ c)
        × (CoreDns.normalize_config p c ≡ c)
        × (PowerDns.normalize_config p c ≡ c)
  unfolding Unbound.normalize_config CoreDns.normalize_config PowerDns.normalize_config
      Unbound.normalize_worker_threads CoreDns.normalize_worker_threads
      PowerDns.normalize_worker_threads
  normalize_config_of_IsNormal c n = (
    ground (
      arith,
      map_fix (Unbound.normalize_upstream p) unbound_upstream_fix c.upstreams n.each,
      mode_fix c.dnssec_mode n.dnssec_mode,
    ),
    ground (
      arith,
      map_fix (CoreDns.normalize_upstream p) core_upstream_fix c.upstreams n.each,
      core_mode c.dnssec_mode,
      mode_fix c.dnssec_mode n.dnssec_mode,
    ),
    ground (
      arith,
      map_fix (PowerDns.normalize_upstream p) power_upstream_fix c.upstreams n.each,
      power_mode c.dnssec_mode,
      mode_fix c.dnssec_mode n.dnssec_mode,
    ),
  )
