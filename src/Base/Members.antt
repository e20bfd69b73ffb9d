-- ===== src/Base/Members.antt =====
-- Predicates over the members of a list, and what a permutation keeps.
use mathlib.Core.List.Perm
use mathlib.Core.Logic.Or
use mathlib.Core.Logic.{∥∥₁_elim}
use mathlib.Core.List.{Mem, Perm, Permᴰ, mem-cons, mem-cons_self, mem-cons_of_mem, not-mem-nil}
use mathlib.Core.List.{List, [], ◌∷◌}
use mathlib.Core.Path.{◌≡◌, refl, sym, ◌∙◌, ap, subst}
use native.Mathlib.Nat.{ℕ_set}
use mathlib.Core.Bool.{Bool, ◌||◌, Bool-set}
use native.Mathlib.Omega.{arith}
use Prim.Native.Nat.{ℕ, suc, ◌+◌}
use astradns_operator.Base.Lists.{All, any, length}

module _ {ℓ} {A : Type ℓ} where
  pub All-mem {κ} :
      {P : A → Type κ} (P-prop : (x : A) → IsProp (P x)) (l : List A) {a : A}
      → All P l
      → Mem a l
      → P a
  All-mem P-prop [] h m = absurd (not-mem-nil m)
  All-mem {P} P-prop (x ∷ xs) {a} h m =
      Or.elim (P-prop a) (mem-cons.0 m) (λ e. subst P (sym e) h.0) (All-mem P-prop xs h.1)

  pub mem-All {κ} : (P : A → Type κ) (l : List A) → ((a : A) → Mem a l → P a) → All P l
  mem-All P [] f = tt
  mem-All P (x ∷ xs) f = (f x mem-cons_self, mem-All P xs (λ a m. f a (mem-cons_of_mem x m)))

  length-permᴰ : {l m : List A} → Permᴰ l m → length l ≡ length m
  length-permᴰ Permᴰ.nil = refl
  length-permᴰ (Permᴰ.cons x p) = ap suc (length-permᴰ p)
  length-permᴰ (Permᴰ.swap x y) = refl
  length-permᴰ (Permᴰ.trans p q) = length-permᴰ p ∙ length-permᴰ q

  pub length-perm : {l m : List A} → Perm l m → length l ≡ length m
  length-perm p = ∥∥₁_elim p (ℕ_set _ _) length-permᴰ

  any-permᴰ : (p : A → Bool) {l m : List A} → Permᴰ l m → any p l ≡ any p m
  unfolding any
  any-permᴰ p Permᴰ.nil = refl
  any-permᴰ p (Permᴰ.cons {l₂ = m} e s) = rw (any-permᴰ p s) (ap (λ a. p a || any p m) e)
  any-permᴰ p (Permᴰ.swap x y) = ground arith
  any-permᴰ p (Permᴰ.trans s t) = any-permᴰ p s ∙ any-permᴰ p t

  pub any-perm : (p : A → Bool) {l m : List A} → Perm l m → any p l ≡ any p m
  any-perm p s = ∥∥₁_elim s (Bool-set _ _) (any-permᴰ p)

  -- What holds of every element holds of every element of a permutation.
  pub All-perm {κ} :
      {P : A → Type κ} (P-prop : (x : A) → IsProp (P x)) {l m : List A}
      → Perm l m
      → All P l
      → All P m
  All-perm {P} P-prop {l} {m} same h =
      mem-All P m (λ a member. All-mem P-prop l h ((Perm.mem_iff same).1 member))

  -- the sum of a measure over a list
  abbrev pub sum_by : (A → ℕ) → List A → ℕ
  sum_by f [] = 0
  sum_by f (x ∷ xs) = f x + sum_by f xs

  sum_by-permᴰ : (f : A → ℕ) {l m : List A} → Permᴰ l m → sum_by f l ≡ sum_by f m
  sum_by-permᴰ f Permᴰ.nil = refl
  sum_by-permᴰ f (Permᴰ.cons {l₂ = m} e s) = rw (sum_by-permᴰ f s) (ap (λ a. f a + sum_by f m) e)
  sum_by-permᴰ f (Permᴰ.swap x y) = ground arith
  sum_by-permᴰ f (Permᴰ.trans s t) = sum_by-permᴰ f s ∙ sum_by-permᴰ f t

  pub sum_by-perm : (f : A → ℕ) {l m : List A} → Perm l m → sum_by f l ≡ sum_by f m
  sum_by-perm f p = ∥∥₁_elim p (ℕ_set _ _) (sum_by-permᴰ f)

  pub sum_by-ext : (f g : A → ℕ) (l : List A) → ((a : A) → f a ≡ g a) → sum_by f l ≡ sum_by g l
  sum_by-ext f g [] h = refl
  sum_by-ext f g (x ∷ xs) h = ground (arith, h x, sum_by-ext f g xs h)
