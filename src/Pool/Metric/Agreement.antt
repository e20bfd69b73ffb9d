-- ===== src/Pool/Metric/Agreement.antt =====
-- The gauge exports exactly the selections on record.
use astradns_operator.Base.{
  String, not, ◌||◌, ◌&&◌, ◌==◌, ℕ, Option, none, some, ◌≡◌, eq_iff, arith, if◌then◌else◌,
  Option-cases, inl, inr,
}
use astradns_operator.Text.{trim_space}
use astradns_operator.Dict.{get, get-remove, get-put}
use astradns_operator.Pool.Metric.{
  Labels, GaugeVec, Selected, labels, Metric, replace_selection, record_selection, clear_selection,
}

abbrev pub series : Option Selected → Labels → Option ℕ
series none l = none
series (some s) l = if s.pool_name == l.pool && s.reason == l.reason then some 1 else none

module _ (v : GaugeVec) where
  -- A series has the value 1 where it names the selection of its namespace, and no other exists.
  abbrev pub Agrees : Metric v → Type 0
  Agrees m = (l : Labels) → v.value m.gauge l ≡ series (get m.state l.namespace) l

  replace_selection-Agrees :
      (namespace : String) (s : Selected) (m : Metric v)
      → Agrees m
      → Agrees (replace_selection v namespace s m)
  unfolding replace_selection
  replace_selection-Agrees namespace s m h l = elim (Option-cases (get m.state namespace)) [
    | inl absent ↦ ground (
      arith,
      absent,
      h l,
      v.value-set m.gauge (labels namespace s) l 1,
      get-put m.state namespace l.namespace s,
      eq_iff namespace l.namespace,
    )
    | inr (previous, present) ↦
        let g' = v.delete m.gauge (labels namespace previous) in
        ground (
          arith,
          present,
          h l,
          v.value-set m.gauge (labels namespace s) l 1,
          v.value-set g' (labels namespace s) l 1,
          v.value-delete m.gauge (labels namespace previous) l,
          get-put m.state namespace l.namespace s,
          eq_iff namespace l.namespace,
          eq_iff previous.pool_name s.pool_name,
          eq_iff previous.reason s.reason,
        )
  ]

  -- After a replacement the series of the namespace are those of its new selection.
  replace_selection_value :
      (namespace : String) (s : Selected) (m : Metric v) (l : Labels)
      → Agrees m
      → v.value (replace_selection v namespace s m).gauge l
        ≡ (if namespace == l.namespace then series (some s) l else v.value m.gauge l)
  unfolding replace_selection
  replace_selection_value namespace s m l h = elim (Option-cases (get m.state namespace)) [
    | inl absent ↦ ground (
      arith,
      absent,
      h l,
      v.value-set m.gauge (labels namespace s) l 1,
      eq_iff namespace l.namespace,
    )
    | inr (previous, present) ↦
        let g' = v.delete m.gauge (labels namespace previous) in
        ground (
          arith,
          present,
          h l,
          v.value-set m.gauge (labels namespace s) l 1,
          v.value-set g' (labels namespace s) l 1,
          v.value-delete m.gauge (labels namespace previous) l,
          eq_iff namespace l.namespace,
          eq_iff previous.pool_name s.pool_name,
          eq_iff previous.reason s.reason,
        )
  ]

  -- Where the gauge exports exactly the recorded selections, it does so after a selection is
  -- recorded: unless the namespace or the pool is blank, the series of the namespace become the one
  -- of the pool, with the single-pool reason for a blank one, and all others stay.
  pub record_selection-Agrees :
      (namespace pool_name selection_reason : String) (m : Metric v)
      → Agrees m
      → let m' = record_selection v namespace pool_name selection_reason m in
        Agrees m'
        × ((l : Labels)
            → v.value m'.gauge l ≡ (
                if namespace == "" || pool_name == "" || not (namespace == l.namespace)
                then v.value m.gauge l
                else series
                    (some (record {
                      pool_name = pool_name;
                      reason =
                          if trim_space selection_reason == ""
                          then "single_pool"
                          else selection_reason;
                    }))
                    l))
  unfolding record_selection
  record_selection-Agrees namespace pool_name selection_reason m h =
      let s : Selected = record {
        pool_name = pool_name;
        reason = if trim_space selection_reason == "" then "single_pool" else selection_reason;
      } in
      (
        λ l. ground (arith, h l, replace_selection-Agrees namespace s m h l),
        λ l. ground (arith, replace_selection_value namespace s m l h),
      )

  -- Where the gauge exports exactly the recorded selections, it does so after a namespace is
  -- cleared: unless it is blank, none of its series is left, and all others stay.
  pub clear_selection-Agrees :
      (namespace : String) (m : Metric v)
      → Agrees m
      → let m' = clear_selection v namespace m in
        Agrees m'
        × ((l : Labels)
            → v.value m'.gauge l ≡ (
                if not (namespace == "") && namespace == l.namespace
                then none
                else v.value m.gauge l))
  unfolding clear_selection
  clear_selection-Agrees namespace m h = elim (Option-cases (get m.state namespace)) [
    | inl absent ↦ (
      λ l. ground (arith, absent, h l),
      λ l. ground (arith, absent, h l, eq_iff namespace l.namespace),
    )
    | inr (previous, present) ↦
        let deleted = v.value-delete m.gauge (labels namespace previous) in
        let removed = get-remove m.state namespace in
        (
          λ l.
              ground
                (arith, present, h l, deleted l, removed l.namespace, eq_iff namespace l.namespace),
          λ l. ground (arith, present, h l, deleted l, eq_iff namespace l.namespace),
        )
  ]
