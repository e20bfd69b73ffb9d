-- ===== src/Template.antt =====
-- The step behind the checks of every `Render`: the input check and the templates of
-- astradns-types and the engine of text/template, none of which the repository holds.
use astradns_operator.Base.{ℕ, String, Result, ◌>>=◌, ◌>>◌, map_err}
use astradns_operator.Engine.{EngineConfig}

-- The errors of `Render`, by the step that returned them.
pub data RenderError : Type 0 where
  nil_config : RenderError
  doh_upstream encrypted_upstream unknown_transport : ℕ → RenderError
  mixed_transports dnssec_unsupported many_tls_names : RenderError
  template_input parse_template run_template : String → RenderError

pub record Templates : Type 1 where
  pub Template : Type 0
  pub TemplateData : Type 0
  -- `engine.ValidateTemplateConfig`
  pub validate : EngineConfig → Result String (Unit {0})
  -- `engine.NewTemplateData`
  pub new_data : EngineConfig → TemplateData
  -- `template.New(name).Parse(text)` for the engine's template
  pub parse : Result String Template
  -- `tmpl.Execute`
  pub execute : Template → TemplateData → Result String String

-- The tail of `Render`, from the input check on.
unfoldable pub run_template_steps : Templates → EngineConfig → Result RenderError String
run_template_steps t normalized = do
  map_err template_input (t.validate normalized)
  let input = t.new_data normalized
  template ← map_err parse_template t.parse
  map_err run_template (t.execute template input)
