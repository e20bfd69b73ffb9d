-- ===== src/Webhook.antt =====
-- controllers/dnsupstreampool_webhook.go: the admission of new pools.
pub mod Admission
pub mod Sequence
use Prim.Native.String.{◌++◌}
use astradns_operator.Base.{
  String, Bool, true, false, not, ◌==◌, Option, none, some, List, [], ◌∷◌, map, Result, ok, err,
  if◌then◌else◌,
}
use astradns_operator.Base.Sort.{sort_stable}
use astradns_operator.Text.{trim_space, text_less}
use astradns_operator.Api.{Pool}

-- `admission.Response`, by the function that builds it
pub data Response : Type 0 where
  allowed denied : String → Response
  bad_request internal_error : Response

-- `admission.Request`, with the fields that the handler reads; `object` is what `json.Unmarshal`
-- makes of the raw object
pub record Request : Type 0 where
  pub operation : String
  pub namespace : String
  pub object : Option Pool

-- the namespace of the object, or else of the request
unfoldable pub request_namespace : Request → Pool → String
request_namespace req pool =
    let namespace = trim_space pool.namespace in
    if namespace == "" then trim_space req.namespace else namespace

-- `strings.Join(names, ", ")`
unfoldable pub join : List String → String
join [] = ""
join (x ∷ []) = x
join (x ∷ y ∷ xs) = x ++ (", " ++ join (y ∷ xs))

unfoldable pub existing_message : List Pool → String
unfolding join
existing_message pools =
    "only one DNSUpstreamPool is allowed per namespace; existing pools: "
    ++ join (sort_stable text_less (map (λ (pool : Pool). pool.name) pools))

-- what follows the list call
unfoldable pub answer {ℓ} : {E : Type ℓ} → Result E (List Pool) → Response
answer (err e) = internal_error
answer (ok []) = allowed "first DNSUpstreamPool in namespace"
answer (ok (pool ∷ pools)) = denied (existing_message (pool ∷ pools))

-- what follows the decoding
unfoldable pub admit {ℓ} :
    {E : Type ℓ} → (String → Result E (List Pool)) → Request → Pool → Response
admit list req pool =
    let namespace = request_namespace req pool in
    if namespace == "" then bad_request else answer (list namespace)

-- `Handle`, over the client's list call; `none` is a client that is not configured
unfoldable pub handle {ℓ} :
    {E : Type ℓ} → Option (String → Result E (List Pool)) → Request → Response
handle client req =
    if not (req.operation == "CREATE")
    then allowed "operation does not create a new DNSUpstreamPool"
    else elim client [
      | none ↦ internal_error
      | some list ↦ elim req.object [ none ↦ bad_request | some pool ↦ admit list req pool ]
    ]
