-- ===== src/Pool/Circuit.antt =====
-- The circuit breaker on ConfigMap writes: `upsertConfigMapWithCircuitBreaker` and its helpers.
-- The mutex makes each helper one step on the two maps; every read of the clock is an argument.
pub mod Phase
pub mod Runs
pub mod Recovers
use astradns_operator.Base.{
  ℕ, zero, suc, ◌+◌, ◌*◌, ◌^◌, String, Bool, true, false, ◌==◌, Option, none, some, List, [], ◌∷◌,
  leb, ltb, Result, ok, err, if◌then◌else◌,
}
use astradns_operator.Dict.{Dict, get, put, remove}

-- `configMapUpdateFailureThreshold`
abbrev pub threshold : ℕ
threshold = 3

-- `configMapCircuitOpenInterval`, in nanoseconds
abbrev pub open_interval : ℕ
open_interval = 30 * 10 ^ 9

-- The maps `configMapFailureCounts` and `configMapCircuitOpenUntil`. A nil map reads as an empty
-- one, and each helper makes both before it writes.
pub record Circuit : Type 0 where
  pub failure_counts : Dict ℕ
  pub open_until : Dict ℕ

abbrev count_of : Option ℕ → ℕ
count_of none = 0
count_of (some n) = n

-- `isConfigMapCircuitOpen` at the time `now`: the deadline, if the circuit is open
unfoldable pub is_open : String → ℕ → Circuit → Option ℕ × Circuit
is_open namespace now c = elim (get c.open_until namespace) [
  | none ↦ (none, c)
  | some deadline ↦
      if ltb deadline now
      then (none, record c { open_until = remove c.open_until namespace })
      else (some deadline, c)
]

-- the part of `recordConfigMapUpdateFailure` behind the test of the deadline, at its own reading of
-- the clock
unfoldable pub count_failure : String → ℕ → Circuit → Circuit
count_failure namespace now c =
    let next = count_of (get c.failure_counts namespace) + 1 in
    if leb threshold next
    then record {
      failure_counts = put c.failure_counts namespace 0;
      open_until = put c.open_until namespace (now + open_interval);
    }
    else record c { failure_counts = put c.failure_counts namespace next }

-- `recordConfigMapUpdateFailure`: the clock is read at the deadline's test and at the opening
unfoldable pub record_failure : String → ℕ → ℕ → Circuit → Circuit
unfolding count_failure
record_failure namespace now later c = elim (get c.open_until namespace) [
  | none ↦ count_failure namespace later c
  | some deadline ↦
      if ltb now deadline
      then c
      else count_failure namespace later (record c { open_until = remove c.open_until namespace })
]

-- `resetConfigMapUpdateFailures`
unfoldable pub reset : String → Circuit → Circuit
reset namespace c = record {
  failure_counts = remove c.failure_counts namespace;
  open_until = remove c.open_until namespace;
}

-- Why an update is refused: the circuit is open until a time, or the write itself failed.
pub data UpsertError {ℓ} (E : Type ℓ) : Type ℓ where
  circuit_open : ℕ → UpsertError E
  write_failed : E → UpsertError E

-- The readings of the clock in one call, in their order.
pub record Clock : Type 0 where
  pub asked : ℕ
  pub failed : ℕ
  pub opened : ℕ

module _ {ℓ κ} {E : Type ℓ} {W : Type κ} where
  -- the two ends of `upsertConfigMapWithCircuitBreaker`
  unfoldable pub finish :
      String
      → Clock
      → Result E (Unit {0}) × W
      → Circuit
      → Result (UpsertError E) (Unit {0}) × W × Circuit
  unfolding record_failure reset
  finish namespace t (ok _, w) c = (ok tt, w, reset namespace c)
  finish namespace t (err e, w) c =
      (err (write_failed e), w, record_failure namespace t.failed t.opened c)

  -- `upsertConfigMapWithCircuitBreaker`, over the write `upsertConfigMap` and its world
  unfoldable pub upsert :
      (W → Result E (Unit {0}) × W)
      → String
      → Clock
      → W
      → Circuit
      → Result (UpsertError E) (Unit {0}) × W × Circuit
  unfolding is_open finish
  upsert write namespace t w c =
      let (open_deadline, c') = is_open namespace t.asked c in
      elim open_deadline [
        | some deadline ↦ (err (circuit_open deadline), w, c')
        | none ↦ finish namespace t (write w) c'
      ]
