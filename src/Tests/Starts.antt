-- ===== src/Tests/Starts.antt =====
-- A start of the operator with the flags that are not given.
use astradns_operator.Base.{String, true, some, [], ◌∷◌, Result, ok, err, ℕ, ◌+◌, ◌≡◌, refl}
use astradns_operator.Text.{trim_space, is_space}
use astradns_operator.Startup.{
  default_flags, TlsConfig, Call, start, Variables, manager_options,
  is_pool_uniqueness_webhook_enabled, main,
}
use astradns_operator.Startup.Calls.{Ends, calls, main-Ends}
use astradns_operator.Startup.Protocols.{configured, manager_options-protocols}

abbrev variables : Variables
variables = record { engine = ""; webhook = " true " }

-- Calls that succeed and are counted, until the manager returns an error.
abbrev perform : Call → ℕ → Result String (Unit {0}) × ℕ
perform start n = (err "stopped", n + 1)
perform _ n = (ok tt, n + 1)

webhook_is_on : is_pool_uniqueness_webhook_enabled " true " ≡ true
unfolding is_pool_uniqueness_webhook_enabled trim_space is_space
webhook_is_on = refl

ten_calls : main perform "unbound" default_flags variables 0 ≡ (some start, 10)
unfolding main trim_space is_space
ten_calls = refl

main-Ends_example :
    Ends perform
      (calls "unbound" default_flags variables)
      0
      (main perform "unbound" default_flags variables 0)
main-Ends_example = main-Ends perform "unbound" default_flags variables 0

abbrev offering : TlsConfig
offering = record { next_protos = "h2" ∷ "http/1.1" ∷ [] }

manager_options-protocols_example :
    let options = manager_options default_flags in
    ((configured options.metrics.tls_options offering).next_protos ≡ "http/1.1" ∷ [])
    × ((configured options.webhook_server.tls_options offering).next_protos ≡ "http/1.1" ∷ [])
    × (options.metrics.has_filter ≡ options.metrics.secure_serving)
manager_options-protocols_example = manager_options-protocols default_flags offering
