-- ===== src/Pool/Select/Cycle.antt =====
-- The comparison is no order where some pool lacks its first resource version.
use mathlib.Core.List.Perm
use mathlib.Core.List.{Mem, Perm, mem-cons_self, mem-cons, mem-cons_of_mem, not-mem-nil}
use mathlib.Core.Logic.Or
use mathlib.Core.Bool.{Bool-set}
use mathlib.Core.HLevel.{⊥_prop}
use astradns_operator.Base.{pos, true, false, List, [], ◌∷◌, ◌≡◌, arith, ◌<ℤ◌}
use astradns_operator.Base.Members.{All-mem}
use astradns_operator.Base.Sort.{IsSortedBy}
use astradns_operator.Text.{text_less}
use astradns_operator.Api.{Pool}
use astradns_operator.Pool.Select.{initial_rv, pool_less}
use astradns_operator.Pool.Select.Order.{pool_less_irrefl}

-- Three pools of one creation second: `b` has no resource version yet, `c` was stamped with an
-- earlier one than `a`, and the names run the other way.
pub record IsKnot (a b c : Pool) : Type 0 where
  pub same_second : (a.creation ≡ b.creation) × (b.creation ≡ c.creation)
  pub unstamped : initial_rv b ≡ pos 0
  pub c_stamped : pos 0 <ℤ initial_rv c
  pub c_earlier : initial_rv c <ℤ initial_rv a
  pub names : (text_less a.name b.name ≡ true) × (text_less b.name c.name ≡ true)

module _ {a b c : Pool} (k : IsKnot a b c) where
  a_before_b : pool_less a b ≡ true
  unfolding pool_less
  a_before_b = ground (arith, k.same_second, k.names, k.unstamped)

  b_before_c : pool_less b c ≡ true
  unfolding pool_less
  b_before_c = ground (arith, k.same_second, k.names, k.unstamped)

  c_before_a : pool_less c a ≡ true
  unfolding pool_less
  c_before_a = ground (arith, k.same_second, k.c_stamped, k.c_earlier)

  -- A head that some other element is before.
  head_not_least :
      (h y : Pool) (t : List Pool)
      → pool_less y h ≡ true
      → Mem y (h ∷ t)
      → ¬ IsSortedBy pool_less (h ∷ t)
  head_not_least h y t below member sorted =
      Or.elim ⊥_prop (mem-cons.0 member) (λ same. cc (same, below, pool_less_irrefl h))
        (λ later. cc (All-mem (λ x. Bool-set (pool_less x h) false) t sorted.0 later, below))

  not_sorted : (l : List Pool) → Perm l (a ∷ b ∷ c ∷ []) → ¬ IsSortedBy pool_less l
  not_sorted [] same sorted = cc (Perm.nil-eq same)
  not_sorted (h ∷ t) same sorted =
      let back = λ (y : Pool) (m : Mem y (a ∷ b ∷ c ∷ [])). (Perm.mem_iff same).1 m in
      Or.elim ⊥_prop (mem-cons.0 ((Perm.mem_iff same).0 mem-cons_self))
        (λ e.
          head_not_least h c t (rw e c_before_a)
            (back c (mem-cons_of_mem a (mem-cons_of_mem b mem-cons_self))) sorted)
        (λ m.
          Or.elim ⊥_prop (mem-cons.0 m)
            (λ e. head_not_least h a t (rw e a_before_b) (back a mem-cons_self) sorted)
            (λ n.
              Or.elim ⊥_prop (mem-cons.0 n)
                (λ e.
                  head_not_least h b t (rw e b_before_c) (back b (mem-cons_of_mem a mem-cons_self))
                    sorted)
                not-mem-nil))

  -- Three pools of one creation second, the second of them unstamped, the third stamped earlier
  -- than the first, their names in order: each is before the next in a circle, so no arrangement of
  -- them is sorted.
  pub knot-not_sorted :
      (l : List Pool)
      → Perm l (a ∷ b ∷ c ∷ [])
      → (pool_less a b ≡ true)
        × (pool_less b c ≡ true)
        × (pool_less c a ≡ true)
        × ¬ IsSortedBy pool_less l
  knot-not_sorted l same = (a_before_b, b_before_c, c_before_a, not_sorted l same)
