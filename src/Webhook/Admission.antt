-- ===== src/Webhook/Admission.antt =====
-- Which requests the webhook lets through.
use astradns_operator.Base.{
  String, some, List, [], ◌∷◌, Result, ok, err, ◌≡◌, ◌≢◌, ◌↔◌, ◌⊎◌, refl, eq_iff, arith,
  Option-cases, Bool-cases, ◌==◌, inl, inr,
}
use astradns_operator.Api.{Pool}
use astradns_operator.Webhook.{allowed, Request, request_namespace, answer, admit, handle}

-- A request that creates a pool where the listing shows none.
pub record IsFirst {E : Type 0} (list : String → Result E (List Pool)) (req : Request)
    : Type 0 where
  pub pool : Pool
  pub decoded : req.object ≡ some pool
  pub in_namespace : request_namespace req pool ≢ ""
  pub listed : list (request_namespace req pool) ≡ ok []

module _ {E : Type 0} (list : String → Result E (List Pool)) (req : Request) where
  answer_first : (r : Result E (List Pool)) (m : String) → answer r ≡ allowed m → r ≡ ok []
  unfolding answer
  answer_first (ok []) m h = refl
  answer_first (ok (x ∷ xs)) m h = cc
  answer_first (err e) m h = cc

  admit-IsFirst :
      (pool : Pool) (m : String)
      → req.object ≡ some pool
      → admit list req pool ≡ allowed m
      → IsFirst list req
  unfolding admit
  admit-IsFirst pool m decoded h = record {
    pool = pool;
    decoded = decoded;
    in_namespace = λ e. ground (arith, eq_iff (request_namespace req pool) "");
    listed =
        answer_first (list (request_namespace req pool)) m
          (ground (arith, eq_iff (request_namespace req pool) ""));
  }

  first_admitted :
      (f : IsFirst list req) → admit list req f.pool ≡ allowed "first DNSUpstreamPool in namespace"
  unfolding admit answer
  first_admitted f =
      ground (arith, f.listed, eq_iff (request_namespace req f.pool) "", f.in_namespace)

  -- With a client, a request is let through exactly when it creates nothing, or its object decodes,
  -- it or the request names a namespace, and the listing of that succeeds and is empty.
  pub handle-allowed_iff :
      ((m : String) × (handle (some list) req ≡ allowed m))
      ↔ ((req.operation ≢ "CREATE") ⊎ IsFirst list req)
  unfolding handle
  handle-allowed_iff = (
    λ (m, h). elim (Bool-cases (req.operation == "CREATE")) [
      | inr other ↦ inl (λ e. ground (arith, eq_iff req.operation "CREATE"))
      | inl create ↦ elim (Option-cases req.object) [
        | inl garbled ↦ absurd (ground (arith, create, garbled))
        | inr (pool, decoded) ↦ inr (admit-IsFirst pool m decoded (ground (arith, create, decoded)))
      ]
    ],
    elim [
      | inl other ↦ (
        "operation does not create a new DNSUpstreamPool",
        ground (arith, eq_iff req.operation "CREATE", other),
      )
      | inr f ↦ elim (Bool-cases (req.operation == "CREATE")) [
        | inr other ↦ ("operation does not create a new DNSUpstreamPool", rw other)
        | inl create ↦
            ("first DNSUpstreamPool in namespace", rw (create, f.decoded) (first_admitted f))
      ]
    ],
  )
