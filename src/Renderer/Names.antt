-- ===== src/Renderer/Names.antt =====
-- Which configurations CoreDNS takes: one TLS server name at most.
use astradns_operator.Base.{
  ℕ, suc, ◌≤◌, String, ◌||◌, ◌==◌, List, [], ◌∷◌, map, any, length, ok, >>=-eq-ok, ◌≡◌, ◌↔◌, ◌⊎◌,
  inl, inr, refl, All, eq_iff, arith, ap, sym, ◌∙◌, if◌then◌else◌, Bool-cases,
}
use astradns_operator.Platform.{Platform}
use astradns_operator.Engine.{UpstreamConfig, EngineConfig}
use astradns_operator.Renderer.CoreDns

-- The upstream uses no TLS server name but this one.
abbrev pub UsesOnly : String → UpstreamConfig → Type 0
UsesOnly name u = (u.transport ≡ "dns") ⊎ (u.tls_server_name ≡ "") ⊎ (u.tls_server_name ≡ name)

abbrev IsKnown : UpstreamConfig → Type 0
IsKnown u = (u.transport ≡ "dns") ⊎ (u.transport ≡ "dot") ⊎ (u.transport ≡ "doh")

-- What one round adds to the names.
abbrev add_name : List String → UpstreamConfig → List String
add_name seen u =
    if u.transport == "dns" || u.tls_server_name == "" || any (λ s. s == u.tls_server_name) seen
    then seen
    else u.tls_server_name ∷ seen

collect_step :
    (i : ℕ) (seen : List String) (u : UpstreamConfig) (us : List UpstreamConfig)
    → IsKnown u
    → CoreDns.collect_names i seen (u ∷ us) ≡ CoreDns.collect_names (suc i) (add_name seen u) us
unfolding CoreDns.collect_names
collect_step i seen u us k =
    ground (arith, eq_iff u.transport "dns", eq_iff u.transport "dot", eq_iff u.transport "doh")

length-add_name : (seen : List String) (u : UpstreamConfig) → length seen ≤ length (add_name seen u)
length-add_name seen u = ground arith

collect_grows :
    (i : ℕ) (seen r : List String) (us : List UpstreamConfig)
    → All IsKnown us
    → CoreDns.collect_names i seen us ≡ ok r
    → length seen ≤ length r
unfolding CoreDns.collect_names
collect_grows i seen r [] k h = ground arith
collect_grows i seen r (u ∷ us) (k, ks) h =
    let rest =
      collect_grows (suc i) (add_name seen u) r us ks (rw (sym (collect_step i seen u us k)) h) in
    omega (arith, length-add_name seen u, rest)

-- A round that leaves a single name alone.
add_name_same :
    (name : String) (u : UpstreamConfig)
    → ((add_name (name ∷ []) u ≡ name ∷ []) × UsesOnly name u)
      ⊎ (add_name (name ∷ []) u ≡ u.tls_server_name ∷ name ∷ [])
unfolding any
add_name_same name u =
    ground
      (arith, eq_iff u.transport "dns", eq_iff u.tls_server_name "", eq_iff name u.tls_server_name)

add_name_first :
    (u : UpstreamConfig)
    → ((add_name [] u ≡ []) × ((u.transport ≡ "dns") ⊎ (u.tls_server_name ≡ "")))
      ⊎ (add_name [] u ≡ u.tls_server_name ∷ [])
unfolding any
add_name_first u = ground (arith, eq_iff u.transport "dns", eq_iff u.tls_server_name "")

UsesOnly-one :
    (i : ℕ) (name : String) (r : List String) (us : List UpstreamConfig)
    → All IsKnown us
    → CoreDns.collect_names i (name ∷ []) us ≡ ok r
    → length r ≤ 1
    → All (UsesOnly name) us
UsesOnly-one i name r [] k h few = tt
UsesOnly-one i name r (u ∷ us) (k, ks) h few = elim (add_name_same name u) [
  | inl (same, here) ↦ (
    here,
    UsesOnly-one (suc i) name r us ks
        (ap (λ s. CoreDns.collect_names (suc i) s us) (sym same)
          ∙ sym (collect_step i (name ∷ []) u us k)
          ∙ h)
        few,
  )
  | inr two ↦ absurd (
      omega (
        arith,
        collect_grows (suc i) (u.tls_server_name ∷ name ∷ []) r us ks (
            ap (λ s. CoreDns.collect_names (suc i) s us) (sym two)
            ∙ sym (collect_step i (name ∷ []) u us k)
            ∙ h),
      ))
]

relax :
    (name : String) (u : UpstreamConfig)
    → (u.transport ≡ "dns") ⊎ (u.tls_server_name ≡ "")
    → UsesOnly name u
relax name u (inl e) = inl e
relax name u (inr e) = inr (inl e)

UsesOnly-some :
    (i : ℕ) (r : List String) (us : List UpstreamConfig)
    → All IsKnown us
    → CoreDns.collect_names i [] us ≡ ok r
    → length r ≤ 1
    → (name : String) × All (UsesOnly name) us
UsesOnly-some i r [] k h few = ("", tt)
UsesOnly-some i r (u ∷ us) (k, ks) h few = elim (add_name_first u) [
  | inl (same, here) ↦
      let (name, rest) = UsesOnly-some (suc i) r us ks (step same) few in
      (name, (relax name u here, rest))
  | inr named ↦ (
    u.tls_server_name,
    (inr (inr refl), UsesOnly-one (suc i) u.tls_server_name r us ks (step named) few),
  )
]
  where
    step :
        {seen : List String} → add_name [] u ≡ seen → CoreDns.collect_names (suc i) seen us ≡ ok r
    step same =
        ap (λ s. CoreDns.collect_names (suc i) s us) (sym same) ∙ sym (collect_step i [] u us k) ∙ h

collect_one :
    (i : ℕ) (name : String) (us : List UpstreamConfig)
    → All IsKnown us
    → All (UsesOnly name) us
    → CoreDns.collect_names i (name ∷ []) us ≡ ok (name ∷ [])
unfolding CoreDns.collect_names any
collect_one i name [] k h = refl
collect_one i name (u ∷ us) (k, ks) (h, hs) = ground (
  arith,
  k,
  h,
  eq_iff u.transport "dns",
  eq_iff u.transport "dot",
  eq_iff u.transport "doh",
  eq_iff u.tls_server_name "",
  eq_iff name u.tls_server_name,
  collect_one (suc i) name us ks hs,
)

collect_some :
    (i : ℕ) (name : String) (us : List UpstreamConfig)
    → All IsKnown us
    → All (UsesOnly name) us
    → (CoreDns.collect_names i [] us ≡ ok []) ⊎ (CoreDns.collect_names i [] us ≡ ok (name ∷ []))
unfolding CoreDns.collect_names any
collect_some i name [] k h = inl refl
collect_some i name (u ∷ us) (k, ks) (h, hs) = ground (
  arith,
  k,
  h,
  eq_iff u.transport "dns",
  eq_iff u.transport "dot",
  eq_iff u.transport "doh",
  eq_iff u.tls_server_name "",
  collect_some (suc i) name us ks hs,
  collect_one (suc i) name us ks hs,
)

module _ (p : Platform) where
  coredns-IsKnown : (us : List UpstreamConfig) → All IsKnown (map (CoreDns.normalize_upstream p) us)
  unfolding CoreDns.normalize_upstream CoreDns.normalize_transport
  coredns-IsKnown [] = tt
  coredns-IsKnown (u ∷ us) = (ground arith, coredns-IsKnown us)

  -- The CoreDNS renderer's check accepts a normalised configuration exactly when DNSSEC is off and
  -- one TLS server name serves all upstreams that are encrypted and have a name.
  pub coredns_accepts_iff :
      (c : EngineConfig)
      → (CoreDns.validate_compatibility (CoreDns.normalize_config p c) ≡ ok tt) ↔ (
          ((CoreDns.normalize_config p c).dnssec_mode ≡ "off")
          × ((name : String) × All (UsesOnly name) (CoreDns.normalize_config p c).upstreams))
  unfolding CoreDns.validate_compatibility CoreDns.normalize_config
  coredns_accepts_iff c =
      let us = map (CoreDns.normalize_upstream p) c.upstreams in
      let mode = CoreDns.normalize_dnssec_mode p c.dnssec_mode in
      let known = coredns-IsKnown c.upstreams in
      (
        λ h. elim (Bool-cases (mode == "off")) [
          | inr other ↦ absurd (ground (arith, other))
          | inl off ↦
              let (seen, collected, rest) =
                >>=-eq-ok (CoreDns.collect_names 0 [] us) _ (rw off at h) in
              ((eq_iff mode "off").0 off, UsesOnly-some 0 seen us known collected (ground arith))
        ],
        λ (off, (name, only)).
            rw ((eq_iff mode "off").1 off) (ground (arith, collect_some 0 name us known only)),
      )
