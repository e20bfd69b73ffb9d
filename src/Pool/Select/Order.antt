-- ===== src/Pool/Select/Order.antt =====
-- Where every pool carries its creation time and its first resource version, the comparison is a
-- strict weak order, and the active pool is the oldest whatever the order of the list.
use mathlib.Core.List.Perm
use mathlib.Core.List.{Mem, Perm, mem-cons_self, mem-cons, not-mem-nil}
use mathlib.Core.Logic.Or
use mathlib.Core.Bool.{Bool-set}
use text.Mathlib.TextEquality.{IsScalar-prop}
use native.Mathlib.Bridge.{le_prop}
use astradns_operator.Base.{
  suc, pos, true, false, none, List, [], ◌∷◌, ltb, length, ◌≡◌, ◌≢◌, refl, sym, ◌∙◌, ap, subst, All,
  arith, ◌<ℤ◌, ◌⊎◌, ℕ, some, ◌≤◌, All-imp, All-zip, if◌then◌else◌,
}
use astradns_operator.Base.Members.{All-mem, mem-All, All-perm, length-perm}
use astradns_operator.Base.Sort.{IsSortedBy}
use astradns_operator.Text.{text_less}
use astradns_operator.Text.Order.{text_less-asym, text_less-negative_trans, text_less_total}
use astradns_operator.Api.{Pool}
use astradns_operator.Pool.Select.{initial_rv, pool_less, PoolSort, select_active}

-- The server has set the creation time, and the first reconcile the annotation.
abbrev pub IsStamped : Pool → Type 0
IsStamped q = (q.creation ≢ none) × (pos 0 <ℤ initial_rv q)

pool_less-asym :
    (a b : Pool) → IsStamped a → IsStamped b → pool_less a b ≡ true → pool_less b a ≡ false
unfolding pool_less
pool_less-asym a b ha hb h = ground (arith, text_less-asym a.name b.name)

pool_less-negative_trans :
    (a b c : Pool)
    → IsStamped a
    → IsStamped b
    → IsStamped c
    → pool_less a b ≡ false
    → pool_less b c ≡ false
    → pool_less a c ≡ false
unfolding pool_less
pool_less-negative_trans a b c ha hb hc h k =
    ground (arith, text_less-negative_trans a.name b.name c.name)

-- Two pools of one rank have one name.
pool_less_total :
    (a b : Pool)
    → IsStamped a
    → IsStamped b
    → pool_less a b ≡ false
    → pool_less b a ≡ false
    → a.name ≡ b.name
unfolding pool_less
pool_less_total a b ha hb h k = ground (arith, text_less_total a.name b.name)

pub IsStamped-prop : (q : Pool) → IsProp (IsStamped q)
IsStamped-prop q = hlevel (le_prop)

pub cons_not-perm-nil : {x : Pool} {xs : List Pool} → ¬ Perm (x ∷ xs) []
cons_not-perm-nil h = cc (Perm.eq-nil h)

pub pool_less_irrefl : (a : Pool) → pool_less a a ≡ false
unfolding pool_less
pool_less_irrefl a = ground (arith, text_less-asym a.name a.name)

-- The creation second, 0 at the zero time.
abbrev pub second : Pool → ℕ
second q = elim q.creation [ none ↦ 0 | some t ↦ t ]

-- `x` was created after `q`, or in its second with a greater initial resource version, or with the
-- same one and under a name that is not before.
abbrev pub IsNoOlder : Pool → Pool → Type 0
IsNoOlder x q =
    (suc (second q) ≤ second x)
    ⊎ ((second q ≡ second x) × (initial_rv q <ℤ initial_rv x))
    ⊎ ((second q ≡ second x) × (initial_rv q ≡ initial_rv x) × (text_less x.name q.name ≡ false))

pool_less-IsNoOlder :
    (x q : Pool) → IsStamped x → IsStamped q → pool_less x q ≡ false → IsNoOlder x q
unfolding pool_less
pool_less-IsNoOlder x q hx hq h = ground arith

module _ (s : PoolSort) where
  -- The head of the sorted list has none of the list before it.
  head_least :
      (l : List Pool) (q : Pool) (qs : List Pool)
      → All IsStamped l
      → s.sort pool_less l ≡ q ∷ qs
      → Mem q l × All (λ x. pool_less x q ≡ false) l
  head_least l q qs stamped e =
      let same : Perm (q ∷ qs) l = subst (λ k. Perm k l) e (s.sort-perm pool_less l) in
      let sorted : IsSortedBy pool_less (q ∷ qs) =
        subst (IsSortedBy pool_less) e (
          s.sort-IsSortedBy IsStamped pool_less l pool_less-asym pool_less-negative_trans
            stamped) in
      (
        (Perm.mem_iff same).0 mem-cons_self,
        mem-All _ l (λ x m.
            Or.elim (Bool-set _ _) (mem-cons.0 ((Perm.mem_iff same).1 m))
              (λ here. rw here (pool_less_irrefl q))
              (λ later. All-mem (λ y. Bool-set (pool_less y q) false) qs sorted.0 later)),
      )

  -- One pool of the list is selected that the comparison puts none before.
  pub select_active_least :
      (l : List Pool)
      → All IsStamped l
      → l ≢ []
      → (q : Pool) × Mem q l
        × (select_active s l ≡ record {
          name = q.name;
          count = length l;
          reason = if ltb 1 (length l) then "oldest_pool" else "single_pool";
        })
        × All (λ x. pool_less x q ≡ false) l
  unfolding select_active
  select_active_least [] stamped h = absurd (h refl)
  select_active_least (x ∷ xs) stamped h = go (s.sort pool_less (x ∷ xs)) refl
    where
      same_length : length (s.sort pool_less (x ∷ xs)) ≡ suc (length xs)
      same_length = length-perm (s.sort-perm pool_less (x ∷ xs))

      go :
          (k : List Pool)
          → s.sort pool_less (x ∷ xs) ≡ k
          → (q : Pool) × Mem q (x ∷ xs)
            × (select_active s (x ∷ xs) ≡ record {
              name = q.name;
              count = suc (length xs);
              reason = if ltb 1 (suc (length xs)) then "oldest_pool" else "single_pool";
            })
            × All (λ y. pool_less y q ≡ false) (x ∷ xs)
      go [] e = absurd (omega (arith, same_length, ap length e))
      go (q ∷ qs) e =
          let (member, least) = head_least (x ∷ xs) q qs stamped e in
          (q, member, rw (same_length, e), least)

  -- Where a list is not empty and each of its pools has a creation time and a positive initial
  -- resource version, the oldest of its pools is selected: every pool of the list was created later,
  -- or in the same second with a greater initial resource version, or with the same one under a name
  -- that is not before. The count is the list's length, and the reason says whether there was a
  -- choice.
  pub select_active-oldest :
      (l : List Pool)
      → All IsStamped l
      → l ≢ []
      → (q : Pool) × Mem q l
        × (select_active s l ≡ record {
          name = q.name;
          count = length l;
          reason = if ltb 1 (length l) then "oldest_pool" else "single_pool";
        })
        × All (λ x. IsNoOlder x q) l
  select_active-oldest l stamped h =
      let (q, member, selected, least) = select_active_least l stamped h in
      let own = All-mem IsStamped-prop l stamped member in
      (
        q,
        member,
        selected,
        All-imp l
            (λ x (f : IsStamped x × (pool_less x q ≡ false)). pool_less-IsNoOlder x q f.0 own f.1)
            (All-zip _ _ l stamped least),
      )

  -- Where each pool has a creation time and a positive initial resource version, the selection
  -- does not depend on the order in which the pools are listed.
  pub select_active-perm :
      (l m : List Pool) → All IsStamped l → Perm l m → select_active s l ≡ select_active s m
  select_active-perm [] m stamped same = rw (Perm.nil-eq same)
  select_active-perm (x ∷ xs) m stamped same =
      let stamped_m = All-perm IsStamped-prop same stamped in
      let (a, a_in, a_eq, a_least) = select_active_least (x ∷ xs) stamped cc in
      let (b, b_in, b_eq, b_least) =
        select_active_least m stamped_m (λ e. cons_not-perm-nil (subst (Perm (x ∷ xs)) e same)) in
      let a_stamped = All-mem IsStamped-prop (x ∷ xs) stamped a_in in
      let b_stamped = All-mem IsStamped-prop m stamped_m b_in in
      let names : a.name ≡ b.name =
        pool_less_total a b a_stamped b_stamped
          (All-mem (λ y. Bool-set (pool_less y b) false) m b_least ((Perm.mem_iff same).0 a_in))
          (All-mem (λ y. Bool-set (pool_less y a) false) (x ∷ xs) a_least
            ((Perm.mem_iff same).1 b_in)) in
      rw (a_eq, b_eq, names, length-perm same)

  IsNoOlder-names : (a b : Pool) → IsNoOlder a b → IsNoOlder b a → a.name ≡ b.name
  IsNoOlder-names a b h k = ground (arith, text_less_total a.name b.name)

  -- A pool that no other of the list is older than is the one that is selected.
  pub select_active_of_oldest :
      (l : List Pool) (a : Pool)
      → All IsStamped l
      → Mem a l
      → All (λ x. IsNoOlder x a) l
      → a.name ≡ (select_active s l).name
  select_active_of_oldest l a stamped member oldest =
      let some_pool : l ≢ [] = λ e. not-mem-nil (subst (Mem a) e member) in
      let (q, q_in, selected, least) = select_active_least l stamped some_pool in
      let no_older =
        pool_less-IsNoOlder a q (All-mem IsStamped-prop l stamped member)
          (All-mem IsStamped-prop l stamped q_in)
          (All-mem (λ y. Bool-set (pool_less y q) false) l least member) in
      let named =
        All-mem {P = λ y. IsNoOlder a y → a.name ≡ y.name} (λ y. hlevel (IsScalar-prop)) l
          (All-imp l (λ y k h. IsNoOlder-names a y h k) oldest) q_in in
      named no_older ∙ sym (ap (λ r. r.name) selected)
