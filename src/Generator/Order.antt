-- ===== src/Generator/Order.antt =====
-- The order of the generated upstreams: by preference, then by weight, else as in the pool.
use mathlib.Core.List.Perm
use mathlib.Core.List.{Perm}
use astradns_operator.Base.{
  ℕ, suc, Bool, not, true, false, eqb_ℤ, ltb_ℤ, Option, some, List, [], ◌∷◌, map, ok, >>=-eq-ok,
  ◌≡◌, refl, ◌∙◌, sym, ap, All, arith, if◌then◌else◌, ◌==◌, pos, eq_iff, ◌≢◌, ◌&&◌, is_empty,
  Bool-cases, inl, inr,
}
use astradns_operator.Base.Sort.{
  sort_stable, select, same_rank, IsWeakOrder, IsSortedBy, sort_stable-perm, sort_stable-IsSortedBy,
  select-sort_stable, IsSortedBy-map, select-map-of,
}
use astradns_operator.Text.{trim_space}
use astradns_operator.Platform.{Platform}
use astradns_operator.Api.{Upstream, Pool, Profile}
use astradns_operator.Engine.{UpstreamConfig, EngineConfig}
use astradns_operator.Generator.{
  default_port, normalize_weight, normalize_preference, upstream_less, normalize_transport,
  default_tls_server_name, convert_upstream, convert_upstreams, generate,
}

-- Whether the first is tried before the second: a lower preference, or the same one and a greater
-- weight.
abbrev pub config_less : UpstreamConfig → UpstreamConfig → Bool
config_less u v =
    if not (eqb_ℤ u.preference v.preference)
    then ltb_ℤ u.preference v.preference
    else ltb_ℤ v.weight u.weight

config_less-asym : (a b : UpstreamConfig) → config_less a b ≡ true → config_less b a ≡ false
config_less-asym a b h = ground arith

config_less-negative_trans :
    (a b c : UpstreamConfig)
    → config_less a b ≡ false
    → config_less b c ≡ false
    → config_less a c ≡ false
config_less-negative_trans a b c h k = ground arith

module _ (p : Platform) where
  -- What the loop appends for an upstream whose address is not empty.
  abbrev pub config_of : Upstream → UpstreamConfig
  config_of u =
      let address = trim_space u.address in
      let transport = normalize_transport p u.transport in
      let given = trim_space u.tls_server_name in
      let named =
        if not (transport == "dns") && given == ""
        then default_tls_server_name p address
        else given in
      record {
        address = address;
        port = if eqb_ℤ u.port (pos 0) then default_port transport else u.port;
        transport = transport;
        tls_server_name = if transport == "dns" then "" else named;
        weight = normalize_weight u.weight;
        preference = normalize_preference u.preference;
      }

  upstream_less_lem : (u v : Upstream) → upstream_less u v ≡ config_less (config_of u) (config_of v)
  unfolding upstream_less
  upstream_less_lem u v = refl

  upstream_less-IsWeakOrder : IsWeakOrder upstream_less
  upstream_less-IsWeakOrder = record {
    asym = λ a b.
        rw (upstream_less_lem a b, upstream_less_lem b a)
          (config_less-asym (config_of a) (config_of b));
    negative_trans = λ a b c.
        rw (upstream_less_lem a b, upstream_less_lem b c, upstream_less_lem a c)
          (config_less-negative_trans (config_of a) (config_of b) (config_of c));
  }

  convert_upstream_lem :
      (i : ℕ) (u : Upstream) (c : UpstreamConfig)
      → convert_upstream p i u ≡ ok c
      → (c ≡ config_of u) × (trim_space u.address ≢ "")
  unfolding convert_upstream
  convert_upstream_lem i u c h = ground (arith, eq_iff (trim_space u.address) "")

  pub convert_upstreams_lem :
      (i : ℕ) (us : List Upstream) (cs : List UpstreamConfig)
      → convert_upstreams p i us ≡ ok cs
      → (cs ≡ map config_of us) × All (λ u. trim_space u.address ≢ "") us
  unfolding convert_upstreams
  convert_upstreams_lem i [] cs h = (cc, tt)
  convert_upstreams_lem i (u ∷ us) cs h =
      let (c, here, rest) = >>=-eq-ok (convert_upstream p i u) _ h in
      let (cs', there, same) = >>=-eq-ok (convert_upstreams p (suc i) us) _ rest in
      let (e, filled) = convert_upstream_lem i u c here in
      let (es, all_filled) = convert_upstreams_lem (suc i) us cs' there in
      (cc (same, e, es), (filled, all_filled))

  pub generate-eq-ok :
      (pool : Pool) (profile : Option Profile) (c : EngineConfig)
      → generate p (some pool) profile ≡ ok c
      → (c.upstreams ≡ map config_of (sort_stable upstream_less pool.spec.upstreams))
        × All (λ u. trim_space u.address ≢ "") (sort_stable upstream_less pool.spec.upstreams)
  unfolding generate
  generate-eq-ok pool profile c h =
      let sorted = sort_stable upstream_less pool.spec.upstreams in
      elim (Bool-cases (is_empty pool.spec.upstreams)) [
        | inl none_given ↦ absurd (ground arith)
        | inr given ↦
            let (cs, converted, same) =
              >>=-eq-ok (convert_upstreams p 0 sorted) _ (rw given at h) in
            let (e, filled) = convert_upstreams_lem 0 sorted cs converted in (cc, filled)
      ]

  -- The upstreams of a generated configuration are those of the pool, each converted, in a stable
  -- order by preference and then by falling weight: none comes before one that it should follow,
  -- the list is a permutation, and those of the rank of any upstream keep the pool's order.
  pub generate-order :
      (pool : Pool) (profile : Option Profile) (c : EngineConfig)
      → generate p (some pool) profile ≡ ok c
      → IsSortedBy config_less c.upstreams
        × Perm c.upstreams (map config_of pool.spec.upstreams)
        × ((u : Upstream)
            → select (same_rank config_less (config_of u)) c.upstreams
              ≡ select (same_rank config_less (config_of u)) (map config_of pool.spec.upstreams))
  generate-order pool profile c h =
      let us = pool.spec.upstreams in
      let order = upstream_less-IsWeakOrder in
      rw (generate-eq-ok pool profile c h).0 (
        IsSortedBy-map upstream_less config_less config_of upstream_less_lem
            (sort_stable upstream_less us) (sort_stable-IsSortedBy upstream_less order us),
        Perm.map config_of (sort_stable-perm upstream_less us),
        λ u.
            select-map-of upstream_less config_less config_of upstream_less_lem u
              (sort_stable upstream_less us)
            ∙ ap (map config_of) (select-sort_stable upstream_less order u us)
            ∙ sym (select-map-of upstream_less config_less config_of upstream_less_lem u us),
      )
