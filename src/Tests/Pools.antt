-- ===== src/Tests/Pools.antt =====
-- The selection, the circuit breaker and the gauge.
use mathlib.Core.List.Perm
use mathlib.Core.List.{Mem}
use astradns_operator.Base.{
  ℕ, ◌+◌, ltb, String, true, Option, none, some, List, [], ◌∷◌, length, Result, err, ◌≡◌, refl, All,
  if◌then◌else◌, arith,
}
use astradns_operator.Base.Sort.{
  sort_stable, sort_stable-perm, sort_stable-IsSortedBy_on, IsSortedBy,
}
use astradns_operator.Text.{parse_int64, text_less}
use astradns_operator.Dict.{get}
use astradns_operator.Api.{Pool}
use astradns_operator.Pool.Select.{initial_rv, pool_less, PoolSort, select_active}
use astradns_operator.Pool.Select.Order.{
  IsStamped, IsNoOlder, select_active-oldest, select_active-perm,
}
use astradns_operator.Pool.Select.Cycle.{IsKnot, knot-not_sorted}
use astradns_operator.Pool.Circuit.{open_interval, Circuit, circuit_open, Clock, upsert}
use astradns_operator.Pool.Circuit.Phase.{phase, holds_at, next_phase, is_ok, reply, upsert-phase}
use astradns_operator.Pool.Circuit.Runs.{calls, third_failure_opens}
use astradns_operator.Pool.Metric.{GaugeVec, Labels, same_labels, Metric, record_selection}
use astradns_operator.Pool.Metric.Agreement.{Agrees}
use astradns_operator.Samples.{plain_pool}

abbrev pub insertion : PoolSort
insertion = record {
  sort = sort_stable;
  sort-perm = sort_stable-perm;
  sort-IsSortedBy =
      λ P less l asym negative_trans h. sort_stable-IsSortedBy_on less P asym negative_trans l h;
}

abbrev older : Pool
older = plain_pool "zeta" 10 (some "41")

abbrev newer : Pool
newer = plain_pool "alpha" 10 (some "97")

both-IsStamped : All IsStamped (newer ∷ older ∷ [])
unfolding initial_rv parse_int64
both-IsStamped = (((λ e. cc), omega arith), (((λ e. cc), omega arith), tt))

older_selected : (select_active insertion (newer ∷ older ∷ [])).name ≡ "zeta"
unfolding select_active pool_less initial_rv parse_int64 sort_stable
older_selected = refl

select_active-oldest_example :
    (q : Pool) × Mem q (newer ∷ older ∷ [])
    × (select_active insertion (newer ∷ older ∷ []) ≡ record {
      name = q.name;
      count = length (newer ∷ older ∷ []);
      reason = if ltb 1 (length (newer ∷ older ∷ [])) then "oldest_pool" else "single_pool";
    })
    × All (λ x. IsNoOlder x q) (newer ∷ older ∷ [])
select_active-oldest_example =
    select_active-oldest insertion (newer ∷ older ∷ []) both-IsStamped (λ e. cc)

select_active-perm_example :
    select_active insertion (newer ∷ older ∷ []) ≡ select_active insertion (older ∷ newer ∷ [])
select_active-perm_example =
    select_active-perm insertion (newer ∷ older ∷ []) (older ∷ newer ∷ []) both-IsStamped
      (Perm.swap older newer [])

abbrev late : Pool
late = plain_pool "a" 10 (some "97")

abbrev fresh : Pool
fresh = plain_pool "b" 10 none

abbrev early : Pool
early = plain_pool "c" 10 (some "41")

knot : IsKnot late fresh early
unfolding initial_rv parse_int64 text_less
knot = record {
  same_second = (refl, refl);
  unstamped = refl;
  c_stamped = omega arith;
  c_earlier = omega arith;
  names = (refl, refl);
}

knot-not_sorted_example :
    (pool_less late fresh ≡ true)
    × (pool_less fresh early ≡ true)
    × (pool_less early late ≡ true)
    × ¬ IsSortedBy pool_less (early ∷ late ∷ fresh ∷ [])
knot-not_sorted_example =
    knot-not_sorted knot (early ∷ late ∷ fresh ∷ [])
      (Perm.trans (Perm.swap late early (fresh ∷ [])) (Perm.cons late (Perm.swap fresh early [])))

-- A write that counts its attempts and fails.
abbrev pub failing : ℕ → Result String (Unit {0}) × ℕ
failing n = (err "conflict", n + 1)

abbrev pub at : ℕ → Clock
at n = record { asked = n; failed = n; opened = n }

abbrev pub closed : Circuit
closed = record { failure_counts = []; open_until = [] }

abbrev opened : Circuit
opened = record { failure_counts = ("dns", 0) ∷ []; open_until = ("dns", 50) ∷ [] }

upsert-phase_example :
    (phase (upsert failing "dns" (at 20) 0 opened).2 "dns"
      ≡ next_phase (at 20) (is_ok (failing 0).0) (phase opened "dns"))
    × ((upsert failing "dns" (at 20) 0 opened).0
        ≡ reply (at 20) (phase opened "dns").deadline (failing 0).0)
    × ((upsert failing "dns" (at 20) 0 opened).1
        ≡ (if holds_at 20 (phase opened "dns").deadline then 0 else (failing 0).1))
upsert-phase_example = upsert-phase failing "dns" (at 20) 0 opened

three : List Clock
three = at 1 ∷ at 2 ∷ at 3 ∷ []

third_failure_opens_example :
    let (w', c') = calls failing "dns" (at 1 ∷ at 2 ∷ at 3 ∷ []) 0 closed in
    ((upsert failing "dns" (at 9) w' c').0 ≡ err (circuit_open (3 + open_interval)))
    × ((upsert failing "dns" (at 9) w' c').1 ≡ w')
    × (phase (calls failing "dns" (at 1 ∷ at 2 ∷ []) 0 closed).1 "dns"
        ≡ record { failures = 2; deadline = none })
unfolding get
third_failure_opens_example =
    third_failure_opens failing "dns" (at 1) (at 2) (at 3) (at 9) 0 closed (λ x. refl) refl
      (omega arith)

-- A gauge as a function of its labels.
abbrev pub series_map : GaugeVec
series_map = record {
  Gauge = Labels → Option ℕ;
  value = λ g l. g l;
  set = λ g l v m. if same_labels l m then some v else g m;
  delete = λ g l m. if same_labels l m then none else g m;
  value-set = λ g l m v. refl;
  value-delete = λ g l m. refl;
}

abbrev pub unset : Metric series_map
unset = record { gauge = λ l. none; state = [] }

pub unset-Agrees : Agrees series_map unset
unfolding get
unset-Agrees l = refl

abbrev recorded : Metric series_map
recorded = record_selection series_map "dns" "main" "oldest_pool" unset
