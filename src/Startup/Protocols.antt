-- ===== src/Startup/Protocols.antt =====
-- Which protocols the two servers offer.
use astradns_operator.Base.{
  List, [], ◌∷◌, ◌≡◌, ap, ◌∙◌, ◌==◌, Bool-cases, inl, inr, arith, if◌then◌else◌,
}
use astradns_operator.Startup.{
  TlsConfig, TlsOption, Flags, disable_http2, tls_options, webhook_options, metrics_options,
  manager_options,
}

-- A server applies its options to the configuration one after the other.
abbrev pub configured : List TlsOption → TlsConfig → TlsConfig
configured [] c = c
configured (option ∷ options) c = configured options (option c)

configured-tls_options :
    (flags : Flags) (c : TlsConfig)
    → (configured (tls_options flags) c).next_protos
      ≡ (if flags.enable_http2 then c.next_protos else "http/1.1" ∷ [])
unfolding tls_options disable_http2
configured-tls_options flags c = ground arith

metrics_options-secure :
    (flags : Flags)
    → ((metrics_options flags).tls_options ≡ tls_options flags)
      × ((metrics_options flags).has_filter ≡ (metrics_options flags).secure_serving)
unfolding metrics_options
metrics_options-secure flags = elim (Bool-cases flags.secure_metrics) [
  | inl secure ↦ ground (arith, secure, Bool-cases (flags.metrics_cert_path == ""))
  | inr plain ↦ ground (arith, plain, Bool-cases (flags.metrics_cert_path == ""))
]

webhook_options-tls_options :
    (flags : Flags) → (webhook_options flags).tls_options ≡ tls_options flags
unfolding webhook_options
webhook_options-tls_options flags = ground (arith, Bool-cases (flags.webhook_cert_path == ""))

-- Both servers of the manager offer HTTP/1.1 alone unless the flag allows HTTP/2, where they offer what
-- their configuration has, and the metrics server has the filter on requests exactly if it is
-- served over TLS.
pub manager_options-protocols :
    (flags : Flags) (c : TlsConfig)
    → let options = manager_options flags in
      let offered = if flags.enable_http2 then c.next_protos else "http/1.1" ∷ [] in
      ((configured options.metrics.tls_options c).next_protos ≡ offered)
      × ((configured options.webhook_server.tls_options c).next_protos ≡ offered)
      × (options.metrics.has_filter ≡ options.metrics.secure_serving)
unfolding manager_options
manager_options-protocols flags c =
    let offers = configured-tls_options flags c in
    let (metrics, secure) = metrics_options-secure flags in
    (
      ap (λ l. (configured l c).next_protos) metrics ∙ offers,
      ap (λ l. (configured l c).next_protos) (webhook_options-tls_options flags) ∙ offers,
      secure,
    )
