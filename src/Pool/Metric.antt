-- ===== src/Pool/Metric.antt =====
-- The gauge that names the active pool of each namespace: `recordActivePoolSelectionMetric` and
-- `clearActivePoolSelectionMetric`. The mutex makes each one step.
pub mod Agreement
use astradns_operator.Base.{
  ℕ, String, Bool, ◌&&◌, ◌||◌, ◌==◌, Option, none, some, ◌≡◌, if◌then◌else◌,
}
use astradns_operator.Text.{trim_space}
use astradns_operator.Dict.{Dict, get, put, remove}

-- The label values, in the order of the gauge's label names.
pub record Labels : Type 0 where
  pub namespace : String
  pub pool : String
  pub reason : String

abbrev pub same_labels : Labels → Labels → Bool
same_labels a b = a.namespace == b.namespace && (a.pool == b.pool && a.reason == b.reason)

-- prometheus.GaugeVec: the exported series, and what setting and deleting one does to it.
pub record GaugeVec : Type 1 where
  pub Gauge : Type 0
  pub value : Gauge → Labels → Option ℕ
  -- `WithLabelValues(...).Set(v)`
  pub set : Gauge → Labels → ℕ → Gauge
  -- `DeleteLabelValues(...)`
  pub delete : Gauge → Labels → Gauge
  pub value-set :
      (g : Gauge) (l m : Labels) (v : ℕ)
      → value (set g l v) m ≡ (if same_labels l m then some v else value g m)
  pub value-delete :
      (g : Gauge) (l m : Labels)
      → value (delete g l) m ≡ (if same_labels l m then none else value g m)

-- `activePoolSelectionState`
pub record Selected : Type 0 where
  pub pool_name : String
  pub reason : String

abbrev pub labels : String → Selected → Labels
labels namespace s = record { namespace = namespace; pool = s.pool_name; reason = s.reason }

module _ (v : GaugeVec) where
  -- the gauge, and the map `activePoolMetricState`
  pub record Metric : Type 0 where
    pub gauge : v.Gauge
    pub state : Dict Selected

  abbrev store_selection : Metric → String → Selected → Metric
  store_selection m namespace s = record {
    gauge = v.set m.gauge (labels namespace s) 1;
    state = put m.state namespace s;
  }

  -- the part behind the defaults, under the lock
  unfoldable pub replace_selection : String → Selected → Metric → Metric
  replace_selection namespace s m = elim (get m.state namespace) [
    | none ↦ store_selection m namespace s
    | some previous ↦
        if previous.pool_name == s.pool_name && previous.reason == s.reason
        then record m { gauge = v.set m.gauge (labels namespace s) 1 }
        else store_selection (record m { gauge = v.delete m.gauge (labels namespace previous) })
            namespace s
  ]

  unfoldable pub record_selection : String → String → String → Metric → Metric
  unfolding replace_selection
  record_selection namespace pool_name selection_reason m =
      if namespace == "" || pool_name == ""
      then m
      else replace_selection namespace
          (record {
            pool_name = pool_name;
            reason = if trim_space selection_reason == "" then "single_pool" else selection_reason;
          })
          m

  unfoldable pub clear_selection : String → Metric → Metric
  clear_selection namespace m = if namespace == "" then m else elim (get m.state namespace) [
    | none ↦ m
    | some previous ↦ record {
      gauge = v.delete m.gauge (labels namespace previous);
      state = remove m.state namespace;
    }
  ]
