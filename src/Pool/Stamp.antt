-- ===== src/Pool/Stamp.antt =====
-- `ensureInitialRVAnnotation`: the resource version of the first reconcile, kept on the pool.
pub mod Once
use astradns_operator.Base.{String, Option, none, some, [], Result, ok, err}
use astradns_operator.Dict.{Dict, get, put}
use astradns_operator.Api.{Pool}
use astradns_operator.Pool.Select.{initial_rv_annotation}

-- `pool.Annotations`, made if it is nil
abbrev pub annotations_of : Pool → Dict String
annotations_of pool = elim pool.annotations [ none ↦ [] | some annotations ↦ annotations ]

-- The pool with its resource version under the annotation.
unfoldable pub stamp : Pool → Pool
stamp pool = record pool {
  annotations = some (put (annotations_of pool) initial_rv_annotation pool.resource_version);
}

-- `ensureInitialRVAnnotation`, over the client's patch, with the pool that it leaves in memory
unfoldable pub ensure_initial_rv {ℓ κ} :
    {E : Type ℓ} {W : Type κ} → (Pool → W → Result E Pool × W) → Pool → W → Result E Pool × W
unfolding stamp
ensure_initial_rv patch pool w = elim (get (annotations_of pool) initial_rv_annotation) [
  | some _ ↦ (ok pool, w)
  | none ↦ patch (stamp pool) w
]
