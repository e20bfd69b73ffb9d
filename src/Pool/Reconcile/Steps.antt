-- ===== src/Pool/Reconcile/Steps.antt =====
-- What a text that has come through the pipeline was made of.
use astradns_operator.Base.{
  String, Option, some, Result, ok, err, map_err, >>=-eq-ok, ◌≡◌, ◌⊎◌, inl, inr, sym, ◌∙◌, ap,
  subst, arith,
}
use astradns_operator.Dict.{get}
use astradns_operator.Platform.{Platform}
use astradns_operator.Api.{Pool, Profile}
use astradns_operator.Engine.{EngineConfig}
use astradns_operator.Template.{Templates}
use astradns_operator.Pool.Validate.{validate_pool}
use astradns_operator.Pool.ConfigMap.{validate_payload_size}
use astradns_operator.Pool.ConfigMap.Limit.{IsSmall}
use astradns_operator.Pool.Reconcile.{
  Pipeline, generation_failed, validation_failed, marshal_failed, too_large, run_pipeline,
}
use astradns_operator.Generator.{generate}
use astradns_operator.Generator.Valid.{IsWellFormed, generate-valid}
use astradns_operator.Renderer.Unbound
use astradns_operator.Renderer.CoreDns
use astradns_operator.Renderer.PowerDns
use astradns_operator.Renderer.Registry.{
  Engines, Renderer, unbound_renderer, coredns_renderer, powerdns_renderer, registered,
  registered-cases,
}
use astradns_operator.Renderer.Supported.{AllUse, IsForCoreDns, generate-supported_iff}

map_err-ok : {E F A : Type 0} (f : E → F) (r : Result E A) (a : A) → map_err f r ≡ ok a → r ≡ ok a
map_err-ok f (ok b) a h = ap ok (cc h)
map_err-ok f (err e) a h = absurd (ground (arith, h))

-- The steps of a text: the configuration that was generated, rendered, marshalled, and is not too large.
pub run_pipeline-ok :
    (pipeline : Pipeline) (pool : Pool) (profile : Option Profile) (text : String)
    → run_pipeline pipeline pool profile ≡ ok text
    → (c : EngineConfig) × (pipeline.generate (some pool) profile ≡ ok c)
      × (rendered : String) × (pipeline.render (some c) ≡ ok rendered)
      × (pipeline.marshal c ≡ ok text)
      × IsSmall text
unfolding run_pipeline validate_payload_size
run_pipeline-ok pipeline pool profile text h =
    let (c, made, h₁) =
      >>=-eq-ok (map_err (λ e. generation_failed) (pipeline.generate (some pool) profile)) _ h in
    let (rendered, passed, h₂) =
      >>=-eq-ok (map_err (λ e. validation_failed) (pipeline.render (some c))) _ h₁ in
    let (written, marshalled, h₃) =
      >>=-eq-ok (map_err (λ e. marshal_failed) (pipeline.marshal c)) _ h₂ in
    let (_, small, last) =
      >>=-eq-ok (map_err (λ e. too_large) (validate_payload_size written)) _ h₃ in
    let same : written ≡ text = cc last in
    (
      c,
      map_err-ok (λ e. generation_failed) (pipeline.generate (some pool) profile) c made,
      rendered,
      map_err-ok (λ e. validation_failed) (pipeline.render (some c)) rendered passed,
      map_err-ok (λ e. marshal_failed) (pipeline.marshal c) written marshalled ∙ ap ok same,
      subst IsSmall same (ground (arith, small)),
    )

module _ (p : Platform) where
  unbound_checked :
      (t : Templates) (c : EngineConfig) (rendered : String)
      → Unbound.render p t (some c) ≡ ok rendered
      → Unbound.validate_compatibility (Unbound.normalize_config p c) ≡ ok tt
  unfolding Unbound.render
  unbound_checked t c rendered h =
      let (_, checked, _) =
        >>=-eq-ok (Unbound.validate_compatibility (Unbound.normalize_config p c)) _ h in
      checked

  coredns_checked :
      (t : Templates) (c : EngineConfig) (rendered : String)
      → CoreDns.render p t (some c) ≡ ok rendered
      → CoreDns.validate_compatibility (CoreDns.normalize_config p c) ≡ ok tt
  unfolding CoreDns.render
  coredns_checked t c rendered h =
      let (_, checked, _) =
        >>=-eq-ok (CoreDns.validate_compatibility (CoreDns.normalize_config p c)) _ h in
      checked

  powerdns_checked :
      (t : Templates) (c : EngineConfig) (rendered : String)
      → PowerDns.render p t (some c) ≡ ok rendered
      → PowerDns.validate_compatibility (PowerDns.normalize_config p c) ≡ ok tt
  unfolding PowerDns.render
  powerdns_checked t c rendered h =
      let (_, checked, _) =
        >>=-eq-ok (PowerDns.validate_compatibility (PowerDns.normalize_config p c)) _ h in
      checked

  -- `ConfigGen`, `ConfigRenderer` and the marshalling, as the start of the manager sets them
  abbrev pub pipeline_of : Renderer → (EngineConfig → Result String String) → Pipeline
  pipeline_of renderer marshal = record {
    generate = generate p;
    render = renderer.render;
    marshal = marshal;
  }

  module _ (engines : Engines) (engine : String) where
    -- What the engine of this type takes.
    abbrev pub Supports : Pool → Type 0
    Supports pool =
        ((engine ≡ engines.unbound_type) × (AllUse p "dns" pool ⊎ AllUse p "dot" pool))
        ⊎ ((engine ≡ engines.coredns_type) × IsForCoreDns p pool)
        ⊎ ((engine ≡ engines.powerdns_type) × AllUse p "dns" pool)

    render-Supports :
        (renderer : Renderer) (pool : Pool) (profile : Option Profile) (c : EngineConfig)
        (rendered : String)
        → get (registered p engines) engine ≡ some renderer
        → validate_pool p (some pool) ≡ ok tt
        → generate p (some pool) profile ≡ ok c
        → renderer.render (some c) ≡ ok rendered
        → Supports pool
    unfolding unbound_renderer coredns_renderer powerdns_renderer
    render-Supports renderer pool profile c rendered known valid made passed =
        let (unbound, powerdns, coredns) = generate-supported_iff p pool profile c valid made in
        elim (registered-cases p engines engine renderer known) [
          | inl (at, same) ↦ inl (
            at,
            unbound.0 (
                unbound_checked engines.unbound_templates c rendered
                  (sym (ap (λ r. r.render (some c)) same) ∙ passed)),
          )
          | inr (inl (at, same)) ↦ inr (
              inl (
                at,
                coredns.0 (
                    coredns_checked engines.coredns_templates c rendered
                      (sym (ap (λ r. r.render (some c)) same) ∙ passed)),
              ))
          | inr (inr (at, same)) ↦ inr (
              inr (
                at,
                powerdns.0 (
                    powerdns_checked engines.powerdns_templates c rendered
                      (sym (ap (λ r. r.render (some c)) same) ∙ passed)),
              ))
        ]

    -- A text that came through the pipeline for a valid pool.
    pub record IsConfiguration (marshal : EngineConfig → Result String String) (pool : Pool)
        (profile : Option Profile) (text : String) : Type 0 where
      pub config : EngineConfig
      pub generated : generate p (some pool) profile ≡ ok config
      pub well_formed : IsWellFormed config
      pub supported : Supports pool
      pub marshalled : marshal config ≡ ok text
      pub small : IsSmall text

    pub run_pipeline-IsConfiguration :
        (renderer : Renderer) (marshal : EngineConfig → Result String String) (pool : Pool)
        (profile : Option Profile) (text : String)
        → get (registered p engines) engine ≡ some renderer
        → validate_pool p (some pool) ≡ ok tt
        → run_pipeline (pipeline_of renderer marshal) pool profile ≡ ok text
        → IsConfiguration marshal pool profile text
    run_pipeline-IsConfiguration renderer marshal pool profile text known valid made =
        let (c, generated, rendered, passed, marshalled, small) =
          run_pipeline-ok (pipeline_of renderer marshal) pool profile text made in
        let (d, expected, good) = generate-valid p pool profile valid in
        let same : d ≡ c = cc (expected, generated) in
        record {
          config = c;
          generated = generated;
          well_formed = subst IsWellFormed same good;
          supported = render-Supports renderer pool profile c rendered known valid generated passed;
          marshalled = marshalled;
          small = small;
        }
