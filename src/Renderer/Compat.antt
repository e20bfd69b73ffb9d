-- ===== src/Renderer/Compat.antt =====
-- Which configurations each engine takes.
use astradns_operator.Base.{
  ℕ, suc, Bool, true, false, not, ◌||◌, ◌==◌, List, [], ◌∷◌, map, any, ok, >>=-eq-ok, ◌≡◌, ◌≢◌, ◌↔◌,
  ◌⊎◌, inl, inr, refl, All, eq_iff, arith, if◌then◌else◌, Bool-cases,
}
use astradns_operator.Platform.{Platform}
use astradns_operator.Engine.{UpstreamConfig, EngineConfig}
use astradns_operator.Renderer.Unbound
use astradns_operator.Renderer.PowerDns

-- One of the three transports.
abbrev IsKnown : UpstreamConfig → Type 0
IsKnown u = (u.transport ≡ "dns") ⊎ (u.transport ≡ "dot") ⊎ (u.transport ≡ "doh")

abbrev is_dot : UpstreamConfig → Bool
is_dot u = u.transport == "dot"

abbrev is_not_dot : UpstreamConfig → Bool
is_not_dot u = not (u.transport == "dot")

-- The loop answers where no upstream is doh, with the two flags.
check_transports_lem :
    (i : ℕ) (plain dot : Bool) (us : List UpstreamConfig)
    → All (λ u. u.transport ≢ "doh") us
    → Unbound.check_transports i plain dot us
      ≡ ok (plain || any is_not_dot us, dot || any is_dot us)
unfolding Unbound.check_transports any
check_transports_lem i plain dot [] h = ground arith
check_transports_lem i plain dot (u ∷ us) (h, hs) = ground (
  arith,
  eq_iff u.transport "doh",
  check_transports_lem (suc i) (if is_dot u then plain else true) (if is_dot u then true else dot)
      us hs,
)

check_transports_no_doh :
    (i : ℕ) (plain dot : Bool) (us : List UpstreamConfig) (r : Bool × Bool)
    → Unbound.check_transports i plain dot us ≡ ok r
    → All (λ u. u.transport ≢ "doh") us
unfolding Unbound.check_transports
check_transports_no_doh i plain dot [] r h = tt
check_transports_no_doh i plain dot (u ∷ us) r h = (
  λ e. ground (arith, eq_iff u.transport "doh"),
  check_transports_no_doh (suc i) (if is_dot u then plain else true)
      (if is_dot u then true else dot) us r (ground arith),
)

All-dot : (us : List UpstreamConfig) → any is_not_dot us ≡ false → All (λ u. u.transport ≡ "dot") us
unfolding any
All-dot [] h = tt
All-dot (u ∷ us) h = (ground (arith, eq_iff u.transport "dot"), All-dot us (ground arith))

All-dns :
    (us : List UpstreamConfig)
    → All IsKnown us
    → All (λ u. u.transport ≢ "doh") us
    → any is_dot us ≡ false
    → All (λ u. u.transport ≡ "dns") us
unfolding any
All-dns [] k n h = tt
All-dns (u ∷ us) (k, ks) (n, ns) h =
    (ground (arith, eq_iff u.transport "dot", n), All-dns us ks ns (ground arith))

no_dot :
    (us : List UpstreamConfig)
    → All (λ u. u.transport ≡ "dns") us
    → (any is_dot us ≡ false) × All (λ u. u.transport ≢ "doh") us
unfolding any
no_dot [] h = (refl, tt)
no_dot (u ∷ us) (h, hs) =
    let (flag, rest) = no_dot us hs in
    (
      ground (arith, flag, eq_iff u.transport "dot", eq_iff "dns" "dot"),
      (λ e. ground (arith, eq_iff "dns" "doh"), rest),
    )

no_plain :
    (us : List UpstreamConfig)
    → All (λ u. u.transport ≡ "dot") us
    → (any is_not_dot us ≡ false) × All (λ u. u.transport ≢ "doh") us
unfolding any
no_plain [] h = (refl, tt)
no_plain (u ∷ us) (h, hs) =
    let (flag, rest) = no_plain us hs in
    (
      ground (arith, flag, eq_iff u.transport "dot"),
      (λ e. ground (arith, eq_iff "dot" "doh"), rest),
    )

module _ (p : Platform) where
  unbound-IsKnown : (us : List UpstreamConfig) → All IsKnown (map (Unbound.normalize_upstream p) us)
  unfolding Unbound.normalize_upstream Unbound.normalize_transport
  unbound-IsKnown [] = tt
  unbound-IsKnown (u ∷ us) = (ground arith, unbound-IsKnown us)

  -- The Unbound renderer's check accepts a normalised configuration exactly when its upstreams are
  -- all plain DNS or all DNS over TLS.
  pub unbound_accepts_iff :
      (c : EngineConfig)
      → (Unbound.validate_compatibility (Unbound.normalize_config p c) ≡ ok tt) ↔ (
          All (λ u. u.transport ≡ "dns") (Unbound.normalize_config p c).upstreams
          ⊎ All (λ u. u.transport ≡ "dot") (Unbound.normalize_config p c).upstreams)
  unfolding Unbound.validate_compatibility Unbound.normalize_config
  unbound_accepts_iff c =
      let us = map (Unbound.normalize_upstream p) c.upstreams in
      (
        λ h.
            let (flags, checked, rest) =
              >>=-eq-ok (Unbound.check_transports 0 false false us) _ h in
            let plain_or_dot = check_transports_no_doh 0 false false us flags checked in
            let counted = check_transports_lem 0 false false us plain_or_dot in
            elim (Bool-cases (any is_dot us)) [
              | inr none_dot ↦ inl (All-dns us (unbound-IsKnown c.upstreams) plain_or_dot none_dot)
              | inl some_dot ↦ inr (All-dot us (ground (arith, some_dot, counted, checked, rest)))
            ],
        elim [
          | inl plain ↦
              let (flag, rest) = no_dot us plain in
              rw (check_transports_lem 0 false false us rest) (ground (arith, flag))
          | inr dot ↦
              let (flag, rest) = no_plain us dot in
              rw (check_transports_lem 0 false false us rest) (ground (arith, flag))
        ],
      )

check_plain_iff :
    (i : ℕ) (us : List UpstreamConfig)
    → (PowerDns.check_plain i us ≡ ok tt) ↔ All (λ u. u.transport ≡ "dns") us
unfolding PowerDns.check_plain
check_plain_iff i [] = (λ h. tt, λ h. refl)
check_plain_iff i (u ∷ us) = ground (arith, eq_iff u.transport "dns", check_plain_iff (suc i) us)

-- The PowerDNS renderer's check accepts a normalised configuration exactly when its upstreams are
-- all plain DNS.
pub powerdns_accepts_iff :
    (p : Platform) (c : EngineConfig)
    → (PowerDns.validate_compatibility (PowerDns.normalize_config p c) ≡ ok tt)
      ↔ All (λ u. u.transport ≡ "dns") (PowerDns.normalize_config p c).upstreams
unfolding PowerDns.validate_compatibility
powerdns_accepts_iff p c = check_plain_iff 0 (PowerDns.normalize_config p c).upstreams
