-- ===== src/Renderer/Registry.antt =====
-- The registration of the three renderers, by the `init` of each package, and their other methods.
use astradns_operator.Base.{
  String, Option, some, [], ◌∷◌, Result, ◌≡◌, ◌⊎◌, inl, inr, sym, ap, ◌∙◌, eq_iff, arith,
}
use astradns_operator.Dict.{Dict, get}
use astradns_operator.Platform.{Platform}
use astradns_operator.Engine.{EngineConfig}
use astradns_operator.Template.{RenderError, Templates}
use astradns_operator.Renderer.Unbound
use astradns_operator.Renderer.CoreDns
use astradns_operator.Renderer.PowerDns

-- `engine.EngineUnbound`, `engine.EngineCoreDNS` and `engine.EnginePowerDNS`, constants of
-- astradns-types, and the engines' templates, which it holds too
pub record Engines : Type 1 where
  pub unbound_type : String
  pub coredns_type : String
  pub powerdns_type : String
  pub unbound_templates : Templates
  pub coredns_templates : Templates
  pub powerdns_templates : Templates

-- `ConfigRenderer`
pub record Renderer : Type 0 where
  pub render : Option EngineConfig → Result RenderError String
  pub engine_type : String
  pub config_file_name : String

module _ (p : Platform) (engines : Engines) where
  -- `UnboundRenderer`
  unfoldable pub unbound_renderer : Renderer
  unbound_renderer = record {
    render = Unbound.render p engines.unbound_templates;
    engine_type = engines.unbound_type;
    config_file_name = "unbound.conf";
  }

  -- `CoreDNSRenderer`
  unfoldable pub coredns_renderer : Renderer
  coredns_renderer = record {
    render = CoreDns.render p engines.coredns_templates;
    engine_type = engines.coredns_type;
    config_file_name = "Corefile";
  }

  -- `PowerDNSRenderer`
  unfoldable pub powerdns_renderer : Renderer
  powerdns_renderer = record {
    render = PowerDns.render p engines.powerdns_templates;
    engine_type = engines.powerdns_type;
    config_file_name = "recursor.conf";
  }

  -- what the three packages register, by the engine's type
  unfoldable pub registered : Dict Renderer
  registered =
      (engines.unbound_type, unbound_renderer)
      ∷ (engines.coredns_type, coredns_renderer)
      ∷ (engines.powerdns_type, powerdns_renderer)
      ∷ []

  -- One of the three is what the registry has for a type.
  pub registered-cases :
      (engine : String) (r : Renderer)
      → get registered engine ≡ some r
      → ((engine ≡ engines.unbound_type) × (r ≡ unbound_renderer))
        ⊎ ((engine ≡ engines.coredns_type) × (r ≡ coredns_renderer))
        ⊎ ((engine ≡ engines.powerdns_type) × (r ≡ powerdns_renderer))
  unfolding registered get
  registered-cases engine r h = ground (
    arith,
    h,
    eq_iff engines.unbound_type engine,
    eq_iff engines.coredns_type engine,
    eq_iff engines.powerdns_type engine,
  )

  -- A renderer that the registry has for a type names that type as its own.
  pub registered-engine_type :
      (engine : String) (r : Renderer) → get registered engine ≡ some r → r.engine_type ≡ engine
  unfolding unbound_renderer coredns_renderer powerdns_renderer
  registered-engine_type engine r h = elim (registered-cases engine r h) [
    | inl (at, same) ↦ ap (λ x. x.engine_type) same ∙ sym at
    | inr (inl (at, same)) ↦ ap (λ x. x.engine_type) same ∙ sym at
    | inr (inr (at, same)) ↦ ap (λ x. x.engine_type) same ∙ sym at
  ]
