-- ===== src/Pool/Reconcile/Writer.antt =====
-- Which pool of a list is not superseded.
use mathlib.Core.Logic.Or
use mathlib.Core.Bool.{Bool-set}
use mathlib.Core.List.{Mem, mem-cons, not-mem-nil}
use astradns_operator.Base.{
  String, Bool, Bool-cases, inl, inr, true, false, not, ◌&&◌, ◌==◌, List, [], ◌∷◌, ltb, length, any,
  ◌≡◌, sym, ◌∙◌, ap, All, eq_iff, arith,
}
use astradns_operator.Api.{Pool}
use astradns_operator.Pool.Select.{PoolSort, select_active}
use astradns_operator.Pool.Select.Order.{IsStamped, select_active_least}

-- The list has a pool of this name.
abbrev pub has_pool : String → List Pool → Bool
has_pool n l = any (λ q. q.name == n) l

only_one :
    (l : List Pool) (q : Pool) (n : String)
    → ltb 1 (length l) ≡ false
    → Mem q l
    → has_pool n l ≡ true
    → n ≡ q.name
unfolding any
only_one [] q n few member there = absurd (not-mem-nil member)
only_one (x ∷ []) q n few member there =
    let same : (n == q.name) ≡ true =
      Or.elim (Bool-set (n == q.name) true) (mem-cons.0 member)
        (λ e. ground (arith, there, eq_iff x.name n, eq_iff n q.name, ap (λ (y : Pool). y.name) e))
        (λ later. absurd (not-mem-nil later)) in
    (eq_iff n q.name).0 same
only_one (x ∷ y ∷ l) q n few member there = absurd (ground (arith, few))

-- A pool of the list that is not superseded is the one that is selected.
pub selected_is_active :
    (s : PoolSort) (l : List Pool) (n : String)
    → All IsStamped l
    → has_pool n l ≡ true
    → (ltb 1 (select_active s l).count && not (n == (select_active s l).name)) ≡ false
    → n ≡ (select_active s l).name
unfolding any
selected_is_active s [] n stamped there selected = absurd (ground (arith, there))
selected_is_active s (x ∷ xs) n stamped there selected =
    let l = x ∷ xs in
    let (q, member, same, _) = select_active_least s l stamped (λ e. cc e) in
    let named : (select_active s l).name ≡ q.name = ap (λ r. r.name) same in
    let counted : (select_active s l).count ≡ length l = ap (λ r. r.count) same in
    elim (Bool-cases (ltb 1 (length l))) [
      | inr few ↦ only_one l q n few member there ∙ sym named
      | inl many ↦ ground (arith, selected, counted, many, eq_iff n (select_active s l).name)
    ]
