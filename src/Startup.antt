-- ===== src/Startup.antt =====
-- cmd/main.go: the options that the flags and the environment give the manager, and the calls that
-- start it. A call that fails ends the process with the code 1. Parsing the flags, the scheme, the
-- logger and its log lines are left out.
pub mod Calls
pub mod Protocols
use astradns_operator.Base.{
  String, Bool, true, false, not, ◌==◌, Option, none, some, List, [], ◌∷◌, any, Result, ok, err,
  if◌then◌else◌,
}
use astradns_operator.Text.{trim_space}

-- `tls.Config`, with the field that is written
pub record TlsConfig : Type 0 where
  pub next_protos : List String

abbrev pub TlsOption : Type 0
TlsOption = TlsConfig → TlsConfig

-- The variables that the flags set.
pub record Flags : Type 0 where
  pub metrics_addr : String
  pub metrics_cert_path : String
  pub metrics_cert_name : String
  pub metrics_cert_key : String
  pub webhook_cert_path : String
  pub webhook_cert_name : String
  pub webhook_cert_key : String
  pub enable_leader_election : Bool
  pub leader_election_id : String
  pub probe_addr : String
  pub secure_metrics : Bool
  pub enable_http2 : Bool

-- the flags that are not given
abbrev pub default_flags : Flags
default_flags = record {
  metrics_addr = "0";
  metrics_cert_path = "";
  metrics_cert_name = "tls.crt";
  metrics_cert_key = "tls.key";
  webhook_cert_path = "";
  webhook_cert_name = "tls.crt";
  webhook_cert_key = "tls.key";
  enable_leader_election = false;
  leader_election_id = "60acac32.astradns.com";
  probe_addr = ":8081";
  secure_metrics = true;
  enable_http2 = false;
}

-- `disableHTTP2`
unfoldable pub disable_http2 : TlsOption
disable_http2 c = record c { next_protos = "http/1.1" ∷ [] }

unfoldable pub tls_options : Flags → List TlsOption
tls_options flags = if not flags.enable_http2 then disable_http2 ∷ [] else []

-- `webhook.Options`, where the empty text is a field that is not set
pub record WebhookOptions : Type 0 where
  pub tls_options : List TlsOption
  pub cert_dir : String
  pub cert_name : String
  pub key_name : String

-- `webhookServerOptions`
unfoldable pub webhook_options : Flags → WebhookOptions
webhook_options flags =
    let options : WebhookOptions = record {
      tls_options = tls_options flags;
      cert_dir = "";
      cert_name = "";
      key_name = "";
    } in
    if not (flags.webhook_cert_path == "")
    then record options {
      cert_dir = flags.webhook_cert_path;
      cert_name = flags.webhook_cert_name;
      key_name = flags.webhook_cert_key;
    }
    else options

-- `metricsserver.Options`; of the filter, whether it is set
pub record MetricsOptions : Type 0 where
  pub bind_address : String
  pub secure_serving : Bool
  pub tls_options : List TlsOption
  pub has_filter : Bool
  pub cert_dir : String
  pub cert_name : String
  pub key_name : String

-- `metricsServerOptions`
unfoldable pub metrics_options : Flags → MetricsOptions
metrics_options flags =
    let options : MetricsOptions = record {
      bind_address = flags.metrics_addr;
      secure_serving = flags.secure_metrics;
      tls_options = tls_options flags;
      has_filter = false;
      cert_dir = "";
      cert_name = "";
      key_name = "";
    } in
    let filtered = if flags.secure_metrics then record options { has_filter = true } else options in
    if not (flags.metrics_cert_path == "")
    then record filtered {
      cert_dir = flags.metrics_cert_path;
      cert_name = flags.metrics_cert_name;
      key_name = flags.metrics_cert_key;
    }
    else filtered

-- `ctrl.Options`
pub record ManagerOptions : Type 0 where
  pub metrics : MetricsOptions
  pub webhook_server : WebhookOptions
  pub probe_address : String
  pub leader_election : Bool
  pub leader_election_id : String

unfoldable pub manager_options : Flags → ManagerOptions
unfolding webhook_options metrics_options
manager_options flags = record {
  metrics = metrics_options flags;
  webhook_server = webhook_options flags;
  probe_address = flags.probe_addr;
  leader_election = flags.enable_leader_election;
  leader_election_id = flags.leader_election_id;
}

-- `engineType`, where `unbound` is `engine.EngineUnbound` and `variable` is ASTRADNS_ENGINE_TYPE
unfoldable pub engine_type : String → String → String
engine_type unbound variable = if variable == "" then unbound else variable

-- `strconv.ParseBool`
unfoldable pub parse_bool : String → Option Bool
unfolding any
parse_bool text =
    if any (λ t. text == t) ("1" ∷ "t" ∷ "T" ∷ "true" ∷ "TRUE" ∷ "True" ∷ [])
    then some true
    else if any (λ t. text == t) ("0" ∷ "f" ∷ "F" ∷ "false" ∷ "FALSE" ∷ "False" ∷ [])
    then some false
    else none

-- `isPoolUniquenessWebhookEnabled`, by the value of its variable
unfoldable pub is_pool_uniqueness_webhook_enabled : String → Bool
unfolding parse_bool
is_pool_uniqueness_webhook_enabled variable =
    let value = trim_space variable in
    if value == "" then false else elim (parse_bool value) [ none ↦ false | some parsed ↦ parsed ]

-- The calls of `main` that may fail.
pub data Call : Type 0 where
  get_config : Call
  new_manager : ManagerOptions → Call
  new_renderer : String → Call
  set_up_pools set_up_profiles set_up_policies set_up_webhook : Call
  add_healthz_check add_readyz_check start : Call

-- The variables of the environment.
pub record Variables : Type 0 where
  pub engine : String
  pub webhook : String

module _ {E W : Type 0} (perform : Call → W → Result E (Unit {0}) × W) where
  -- a call, and `os.Exit(1)` where it fails: the call that ended the process
  unfoldable pub attempt : Call → (W → Option Call × W) → W → Option Call × W
  attempt call next w =
      let (r, w') = perform call w in elim r [ ok _ ↦ next w' | err e ↦ (some call, w') ]

  unfoldable pub set_up_webhook_if : Bool → (W → Option Call × W) → W → Option Call × W
  unfolding attempt
  set_up_webhook_if true next w = attempt set_up_webhook next w
  set_up_webhook_if false next w = next w

  -- `main` from the manager on, over the calls of the libraries
  unfoldable pub main : String → Flags → Variables → W → Option Call × W
  unfolding attempt set_up_webhook_if manager_options engine_type is_pool_uniqueness_webhook_enabled
  main unbound flags variables = attempt get_config (
      attempt (new_manager (manager_options flags)) (
        attempt (new_renderer (engine_type unbound variables.engine)) (
          attempt set_up_pools (
            attempt set_up_profiles (
              attempt set_up_policies (
                set_up_webhook_if (is_pool_uniqueness_webhook_enabled variables.webhook) (
                  attempt add_healthz_check
                    (attempt add_readyz_check (attempt start (λ w. (none, w)))))))))))
