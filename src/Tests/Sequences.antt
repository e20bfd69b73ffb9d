-- ===== src/Tests/Sequences.antt =====
-- Sequences of calls, requests and runs.
use astradns_operator.Base.{◌+◌, String, some, [], ◌∷◌, ok, map_err, ◌≡◌, refl, arith}
use astradns_operator.Base.Sort.{select}
use astradns_operator.Dict.{get}
use astradns_operator.Text.{trim_space, is_space}
use astradns_operator.Webhook.{Request, allowed, request_namespace, answer, admit, handle}
use astradns_operator.Webhook.Sequence.{in_namespace, Step, Reached, IsAlone, Reached-IsAlone}
use astradns_operator.Pool.Circuit.{open_interval, write_failed, upsert}
use astradns_operator.Pool.Circuit.Runs.{calls}
use astradns_operator.Pool.Circuit.Recovers.{calls-attempted}
use astradns_operator.Tests.Pools.{failing, at, closed}
use astradns_operator.Tests.Reconciles.{pool}

calls-attempted_example :
    let (w', c') = calls failing "dns" (at 1 ∷ at 2 ∷ at 3 ∷ []) 0 closed in
    ((upsert failing "dns" (at (4 + open_interval)) w' c').0 ≡ map_err write_failed (failing w').0)
    × ((upsert failing "dns" (at (4 + open_interval)) w' c').1 ≡ (failing w').1)
unfolding get
calls-attempted_example =
    calls-attempted failing "dns" 3 (at 1 ∷ at 2 ∷ at 3 ∷ []) (at (4 + open_interval)) 0 closed tt
      (omega arith, (omega arith, (omega arith, tt))) (omega arith)

abbrev creation : Request
creation = record { operation = "CREATE"; namespace = "dns"; object = some pool }

creation_passes :
    handle {E = String} (some (λ n. ok (in_namespace [] n))) creation
    ≡ allowed "first DNSUpstreamPool in namespace"
unfolding handle admit answer request_namespace select trim_space is_space
creation_passes = refl

named_dns : pool.namespace ≡ request_namespace creation pool
unfolding request_namespace trim_space is_space
named_dns = refl

Reached-IsAlone_example : IsAlone (pool ∷ [])
Reached-IsAlone_example = Reached-IsAlone (pool ∷ []) (
    Reached.then [] (pool ∷ []) Reached.start (
      Step.create [] creation "first DNSUpstreamPool in namespace" pool pool refl refl
        creation_passes named_dns))
