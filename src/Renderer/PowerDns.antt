-- ===== src/Renderer/PowerDns.antt =====
-- pkg/engineconfig/powerdns/renderer.go
use astradns_operator.Base.{
  ℕ, suc, ℤ, pos, String, not, ◌==◌, Option, none, some, List, [], ◌∷◌, map, ltb_ℤ, leb_ℤ, eqb_ℤ,
  Result, ok, err, ◌>>◌, if◌then◌else◌,
}
use astradns_operator.Text.{trim_space, to_lower}
use astradns_operator.Platform.{Platform}
use astradns_operator.Engine.{UpstreamConfig, EngineConfig}
use astradns_operator.Template.{
  RenderError, nil_config, encrypted_upstream, Templates, run_template_steps,
}

unfoldable pub default_port : String → ℤ
default_port transport =
    if transport == "dot" then pos 853 else if transport == "doh" then pos 443 else pos 53

-- the loop of `validatePowerDNSCompatibility`
unfoldable pub check_plain : ℕ → List UpstreamConfig → Result RenderError (Unit {0})
check_plain i [] = ok tt
check_plain i (u ∷ us) =
    if not (u.transport == "dns") then err (encrypted_upstream i) else check_plain (suc i) us

unfoldable pub validate_compatibility : EngineConfig → Result RenderError (Unit {0})
validate_compatibility config = check_plain 0 config.upstreams

module _ (p : Platform) where
  unfoldable pub normalize_transport : String → String
  normalize_transport transport =
      let trimmed = to_lower p.lower_table (trim_space transport) in
      if trimmed == "dot" then "dot" else if trimmed == "doh" then "doh" else "dns"

  unfoldable pub normalize_dnssec_mode : String → String
  normalize_dnssec_mode mode =
      let trimmed = to_lower p.lower_table (trim_space mode) in
      if trimmed == "process"
      then "process"
      else if trimmed == "validate"
      then "validate"
      else "off"

  unfoldable pub normalize_worker_threads : ℤ → ℤ
  normalize_worker_threads value =
      if ltb_ℤ (pos 256) value
      then pos 256
      else if ltb_ℤ (pos 0) value
      then value
      else if leb_ℤ p.num_cpu (pos 0)
      then pos 2
      else if ltb_ℤ (pos 256) p.num_cpu
      then pos 256
      else p.num_cpu

  -- one round of the loop of `normalizeConfig`
  unfoldable pub normalize_upstream : UpstreamConfig → UpstreamConfig
  normalize_upstream u =
      let transport = normalize_transport u.transport in
      let given = trim_space u.tls_server_name in
      record u {
        transport = transport;
        port = if eqb_ℤ u.port (pos 0) then default_port transport else u.port;
        tls_server_name = if transport == "dns" then "" else given;
        weight = if leb_ℤ u.weight (pos 0) then pos 1 else u.weight;
        preference = if leb_ℤ u.preference (pos 0) then pos 100 else u.preference;
      }

  unfoldable pub normalize_config : EngineConfig → EngineConfig
  normalize_config config = record config {
    worker_threads = normalize_worker_threads config.worker_threads;
    dnssec_mode = normalize_dnssec_mode config.dnssec_mode;
    upstreams = map normalize_upstream config.upstreams;
  }

  -- `Render`
  unfoldable pub render : Templates → Option EngineConfig → Result RenderError String
  render t none = err nil_config
  render t (some config) = do
    let normalized = normalize_config config
    validate_compatibility normalized
    run_template_steps t normalized
