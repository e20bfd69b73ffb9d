-- ===== src/Renderer/Supported.antt =====
-- Which of the pools that the reconciler's validation accepts each engine takes.
use astradns_operator.Base.{
  String, Option, none, some, List, [], ◌∷◌, map, ok, ◌≡◌, ◌↔◌, ◌⊎◌, inl, inr, refl, sym, ◌∙◌, ap,
  subst, All, All-imp, All-zip, eq_iff, arith, Option-cases,
}
use astradns_operator.Base.Sort.{sort_stable, All-sort_stable, All-of_sort_stable}
use astradns_operator.Text.{trim_space, to_lower}
use astradns_operator.Platform.{Platform}
use astradns_operator.Api.{Upstream, Pool, Profile}
use astradns_operator.Engine.{UpstreamConfig, EngineConfig}
use astradns_operator.Pool.Validate.{parse_transport, parse_dnssec_mode, validate_pool}
use astradns_operator.Pool.Validate.Sound.{IsValidUpstream, validate_pool_iff}
use astradns_operator.Generator.{upstream_less, normalize_dnssec_mode, generate}
use astradns_operator.Generator.Order.{config_of, generate-eq-ok}
use astradns_operator.Generator.Valid.{
  normalize-parse_transport, transport_cases, mode_cases, All-map,
}
use astradns_operator.Generator.Fixpoint.{generate-settings}
use astradns_operator.Renderer.Unbound
use astradns_operator.Renderer.CoreDns
use astradns_operator.Renderer.PowerDns
use astradns_operator.Renderer.Normal.{transport_fix, mode_fix, power_transport, core_mode}
use astradns_operator.Renderer.Compat.{unbound_accepts_iff, powerdns_accepts_iff}
use astradns_operator.Renderer.Names.{UsesOnly, coredns_accepts_iff}

pub All-of_map {ℓ κ μ} :
    {A : Type ℓ} {B : Type κ} (P : B → Type μ) (f : A → B) (l : List A)
    → All P (map f l)
    → All (λ x. P (f x)) l
All-of_map P f [] h = tt
All-of_map P f (x ∷ xs) (h, hs) = (h, All-of_map P f xs hs)

module _ (p : Platform) where
  -- All upstreams of the pool have this transport, as the validation reads it.
  abbrev pub AllUse : String → Pool → Type 0
  AllUse t pool = All (λ u. parse_transport p u.transport ≡ some t) pool.spec.upstreams

  -- What CoreDNS asks of a pool: no DNSSEC, and one TLS server name for all that are encrypted.
  abbrev pub IsForCoreDns : Pool → Type 0
  IsForCoreDns pool =
      (parse_dnssec_mode p pool.spec.dnssec_mode ≡ some "off")
      × (name : String) × All (λ u. UsesOnly name (CoreDns.normalize_upstream p (config_of p u)))
          pool.spec.upstreams

  -- A predicate on the upstreams that a renderer works on, as one on the pool's.
  normalized_iff :
      (normalize : UpstreamConfig → UpstreamConfig) (P : UpstreamConfig → Type 0) (pool : Pool)
      (profile : Option Profile) (c : EngineConfig)
      → generate p (some pool) profile ≡ ok c
      → All P (map normalize c.upstreams)
        ↔ All (λ u. P (normalize (config_of p u))) pool.spec.upstreams
  normalized_iff normalize P pool profile c h =
      let us = pool.spec.upstreams in
      let sorted = sort_stable upstream_less us in
      let Q = λ (x : UpstreamConfig). P (normalize x) in
      let same = (generate-eq-ok p pool profile c h).0 in
      (
        λ a.
            All-of_sort_stable upstream_less (λ u. Q (config_of p u)) us
              (All-of_map Q (config_of p) sorted
                (subst (All Q) same (All-of_map P normalize c.upstreams a))),
        λ a. All-map P normalize c.upstreams (
            subst (All Q) (sym same) (
              All-map Q (config_of p) sorted
                (All-sort_stable upstream_less (λ u. Q (config_of p u)) us a))),
      )

  unbound_transport :
      (u : UpstreamConfig)
      → (Unbound.normalize_upstream p u).transport ≡ Unbound.normalize_transport p u.transport
  unfolding Unbound.normalize_upstream
  unbound_transport u = refl

  powerdns_transport :
      (u : UpstreamConfig)
      → (PowerDns.normalize_upstream p u).transport ≡ Unbound.normalize_transport p u.transport
  unfolding PowerDns.normalize_upstream
  powerdns_transport u = power_transport p u.transport

  -- The transport of a valid upstream comes through the generator and a renderer's normalisation.
  transport_kept :
      (u : Upstream) (t : String)
      → IsValidUpstream p u
      → (Unbound.normalize_transport p (config_of p u).transport ≡ t)
        ↔ (parse_transport p u.transport ≡ some t)
  transport_kept u t v = elim (Option-cases (parse_transport p u.transport)) [
    | inl bad ↦ absurd (v.transport bad)
    | inr (known, parsed) ↦
        let kept : Unbound.normalize_transport p (config_of p u).transport ≡ known =
          transport_fix p (config_of p u).transport (transport_cases p u.transport)
          ∙ normalize-parse_transport p u.transport known parsed in
        (
          λ e. parsed ∙ ap some (sym kept ∙ e),
          λ e. let same : known ≡ t = cc (parsed, e) in kept ∙ same,
        )
  ]

  transports_iff :
      (normalize : UpstreamConfig → UpstreamConfig)
      → ((u : UpstreamConfig) → (normalize u).transport ≡ Unbound.normalize_transport p u.transport)
      → (t : String) (pool : Pool) (profile : Option Profile) (c : EngineConfig)
      → All (IsValidUpstream p) pool.spec.upstreams
      → generate p (some pool) profile ≡ ok c
      → All (λ u. u.transport ≡ t) (map normalize c.upstreams) ↔ AllUse t pool
  transports_iff normalize reads t pool profile c valid h =
      let us = pool.spec.upstreams in
      let over = normalized_iff normalize (λ u. u.transport ≡ t) pool profile c h in
      (
        λ a.
            All-imp us
              (λ u (f : IsValidUpstream p u × ((normalize (config_of p u)).transport ≡ t)).
                (transport_kept u t f.0).0 (sym (reads (config_of p u)) ∙ f.1))
              (All-zip _ _ us valid (over.0 a)),
        λ a. over.1 (
            All-imp us
              (λ u (f : IsValidUpstream p u × (parse_transport p u.transport ≡ some t)).
                reads (config_of p u) ∙ (transport_kept u t f.0).1 f.1)
              (All-zip _ _ us valid a)),
      )

  -- A mode that the validation reads is the one that the configuration has.
  mode_kept :
      (raw : String)
      → ¬ (parse_dnssec_mode p raw ≡ none)
      → (CoreDns.normalize_dnssec_mode p (normalize_dnssec_mode p raw) ≡ "off")
        ↔ (parse_dnssec_mode p raw ≡ some "off")
  unfolding parse_dnssec_mode normalize_dnssec_mode
  mode_kept raw known =
      let trimmed = to_lower p.lower_table (trim_space raw) in
      let mode = normalize_dnssec_mode p raw in
      ground (
        arith,
        core_mode p mode,
        mode_fix p mode (mode_cases p raw),
        known,
        eq_iff trimmed "",
        eq_iff trimmed "off",
        eq_iff trimmed "process",
        eq_iff trimmed "validate",
        eq_iff "process" "off",
        eq_iff "validate" "off",
        eq_iff "" "process",
        eq_iff "" "validate",
      )

  -- Of the pools that the reconciler's validation accepts, with their generated configurations:
  -- Unbound takes those whose upstreams are all plain DNS or all DNS over TLS, PowerDNS those whose
  -- upstreams are all plain DNS, and CoreDNS those without DNSSEC for which one TLS server name serves
  -- all upstreams that are encrypted and have a name.
  pub generate-supported_iff :
      (pool : Pool) (profile : Option Profile) (c : EngineConfig)
      → validate_pool p (some pool) ≡ ok tt
      → generate p (some pool) profile ≡ ok c
      → ((Unbound.validate_compatibility (Unbound.normalize_config p c) ≡ ok tt)
          ↔ (AllUse "dns" pool ⊎ AllUse "dot" pool))
        × ((PowerDns.validate_compatibility (PowerDns.normalize_config p c) ≡ ok tt)
            ↔ AllUse "dns" pool)
        × ((CoreDns.validate_compatibility (CoreDns.normalize_config p c) ≡ ok tt)
            ↔ IsForCoreDns pool)
  unfolding Unbound.normalize_config PowerDns.normalize_config CoreDns.normalize_config
  generate-supported_iff pool profile c accepted h =
      let valid = (validate_pool_iff p pool).0 accepted in
      let unbound = unbound_accepts_iff p c in
      let powerdns = powerdns_accepts_iff p c in
      let coredns = coredns_accepts_iff p c in
      let unbound_uses = λ (t : String).
        transports_iff (Unbound.normalize_upstream p) unbound_transport t pool profile c valid.each
          h in
      let powerdns_uses =
        transports_iff (PowerDns.normalize_upstream p) powerdns_transport "dns" pool profile c
          valid.each h in
      let names = λ (name : String).
        normalized_iff (CoreDns.normalize_upstream p) (UsesOnly name) pool profile c h in
      let mode = mode_kept pool.spec.dnssec_mode valid.dnssec_mode in
      let set = (generate-settings p pool profile c h).1 in
      (
        (
          λ e. elim (unbound.0 e) [
            | inl a ↦ inl ((unbound_uses "dns").0 a)
            | inr a ↦ inr ((unbound_uses "dot").0 a)
          ],
          elim [
            | inl a ↦ unbound.1 (inl ((unbound_uses "dns").1 a))
            | inr a ↦ unbound.1 (inr ((unbound_uses "dot").1 a))
          ],
        ),
        (λ e. powerdns_uses.0 (powerdns.0 e), λ a. powerdns.1 (powerdns_uses.1 a)),
        (
          λ e.
              let (off, (name, a)) = coredns.0 e in
              (
                mode.0 (ap (CoreDns.normalize_dnssec_mode p) (sym set) ∙ off),
                name,
                (names name).0 a,
              ),
          λ (off, name, a).
              coredns.1
                (ap (CoreDns.normalize_dnssec_mode p) set ∙ mode.1 off, (name, (names name).1 a)),
        ),
      )
