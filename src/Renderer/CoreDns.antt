-- ===== src/Renderer/CoreDns.antt =====
-- pkg/engineconfig/coredns/renderer.go
use astradns_operator.Base.{
  ℕ, suc, ℤ, pos, String, not, ◌&&◌, ◌==◌, Option, none, some, List, [], ◌∷◌, map, ltb_ℤ, leb_ℤ,
  eqb_ℤ, Result, ok, err, ◌>>=◌, ◌>>◌, if◌then◌else◌, ◌||◌, any, ltb, length,
}
use astradns_operator.Text.{trim_space, trim_dot, to_lower}
use astradns_operator.Platform.{Platform}
use astradns_operator.Engine.{UpstreamConfig, EngineConfig}
use astradns_operator.Template.{
  RenderError, nil_config, unknown_transport, dnssec_unsupported, many_tls_names, Templates,
  run_template_steps,
}

unfoldable pub default_port : String → ℤ
default_port transport =
    if transport == "dot" then pos 853 else if transport == "doh" then pos 443 else pos 53

-- The names that the map `seenTLSServerNames` comes to hold, each once.
unfoldable pub collect_names :
    ℕ → List String → List UpstreamConfig → Result RenderError (List String)
collect_names i seen [] = ok seen
collect_names i seen (u ∷ us) =
    if not (u.transport == "dns" || u.transport == "dot" || u.transport == "doh")
    then err (unknown_transport i)
    else collect_names (suc i)
        (if u.transport == "dns"
            || u.tls_server_name == ""
            || any (λ s. s == u.tls_server_name) seen
          then seen
          else u.tls_server_name ∷ seen)
        us

unfoldable pub validate_compatibility : EngineConfig → Result RenderError (Unit {0})
validate_compatibility config =
    if not (config.dnssec_mode == "off") then err dnssec_unsupported else do
      seen ← collect_names 0 [] config.upstreams
      if ltb 1 (length seen) then err many_tls_names else ok tt

module _ (p : Platform) where
  unfoldable pub normalize_transport : String → String
  normalize_transport transport =
      let trimmed = to_lower p.lower_table (trim_space transport) in
      if trimmed == "dot" then "dot" else if trimmed == "doh" then "doh" else "dns"

  unfoldable pub normalize_dnssec_mode : String → String
  normalize_dnssec_mode mode =
      let trimmed = to_lower p.lower_table (trim_space mode) in
      if trimmed == "process"
      then "process"
      else if trimmed == "validate"
      then "validate"
      else "off"

  unfoldable pub normalize_worker_threads : ℤ → ℤ
  normalize_worker_threads value =
      if ltb_ℤ (pos 256) value
      then pos 256
      else if ltb_ℤ (pos 0) value
      then value
      else if leb_ℤ p.num_cpu (pos 0)
      then pos 2
      else if ltb_ℤ (pos 256) p.num_cpu
      then pos 256
      else p.num_cpu

  unfoldable pub default_tls_server_name : String → String
  default_tls_server_name address =
      let trimmed = trim_dot (trim_space address) in
      if trimmed == "" then "" else if p.is_addr trimmed then "" else trimmed

  -- one round of the loop of `normalizeConfig`
  unfoldable pub normalize_upstream : UpstreamConfig → UpstreamConfig
  normalize_upstream u =
      let transport = normalize_transport u.transport in
      let given = trim_space u.tls_server_name in
      let named =
        if not (transport == "dns") && given == ""
        then default_tls_server_name u.address
        else given in
      record u {
        transport = transport;
        port = if eqb_ℤ u.port (pos 0) then default_port transport else u.port;
        tls_server_name = if transport == "dns" then "" else named;
        weight = if leb_ℤ u.weight (pos 0) then pos 1 else u.weight;
        preference = if leb_ℤ u.preference (pos 0) then pos 100 else u.preference;
      }

  unfoldable pub normalize_config : EngineConfig → EngineConfig
  normalize_config config = record config {
    worker_threads = normalize_worker_threads config.worker_threads;
    dnssec_mode = normalize_dnssec_mode config.dnssec_mode;
    upstreams = map normalize_upstream config.upstreams;
  }

  -- `Render`
  unfoldable pub render : Templates → Option EngineConfig → Result RenderError String
  render t none = err nil_config
  render t (some config) = do
    let normalized = normalize_config config
    validate_compatibility normalized
    run_template_steps t normalized
