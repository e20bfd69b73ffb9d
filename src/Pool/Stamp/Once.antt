-- ===== src/Pool/Stamp/Once.antt =====
-- The stamp is written once, whatever becomes of the live resource version.
use astradns_operator.Base.{
  ℤ, pos, String, Option, none, some, Result, ok, ◌≡◌, refl, arith, eq_refl,
}
use astradns_operator.Text.{parse_int64}
use astradns_operator.Dict.{get, get-put}
use astradns_operator.Api.{Pool}
use astradns_operator.Pool.Select.{initial_rv_annotation, initial_rv}
use astradns_operator.Pool.Stamp.{annotations_of, stamp, ensure_initial_rv}

abbrev pub version_of : Option ℤ → ℤ
version_of none = pos 0
version_of (some v) = v

initial_rv-stamp :
    (pool : Pool) → initial_rv (stamp pool) ≡ version_of (parse_int64 pool.resource_version)
unfolding initial_rv stamp
initial_rv-stamp pool = ground (
  arith,
  eq_refl initial_rv_annotation,
  get-put (annotations_of pool) initial_rv_annotation initial_rv_annotation pool.resource_version,
)

module _ {E W : Type 0} (patch : Pool → W → Result E Pool × W) where
  -- A pool without the annotation is patched to one whose initial resource version is its live one;
  -- whatever its live one is later, the next call makes no patch and the initial one is the same.
  pub ensure_initial_rv-once :
      (pool : Pool) (later : String) (w w' : W)
      → get (annotations_of pool) initial_rv_annotation ≡ none
      → let stamped : Pool = stamp pool in
        let next : Pool = record stamped { resource_version = later } in
        (ensure_initial_rv patch pool w ≡ patch stamped w)
        × (initial_rv stamped ≡ version_of (parse_int64 pool.resource_version))
        × (ensure_initial_rv patch next w' ≡ (ok next, w'))
        × (initial_rv next ≡ initial_rv stamped)
  unfolding ensure_initial_rv initial_rv
  ensure_initial_rv-once pool later w w' unstamped =
      let written =
        get-put (annotations_of pool) initial_rv_annotation initial_rv_annotation
          pool.resource_version in
      (
        ground (arith, unstamped),
        initial_rv-stamp pool,
        ground (arith, eq_refl initial_rv_annotation, written),
        refl,
      )
