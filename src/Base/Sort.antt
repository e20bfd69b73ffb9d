-- ===== src/Base/Sort.antt =====
-- Go's `sort.SliceStable`: its result is the one stable order, which insertion computes.
use mathlib.Core.List.Perm
use mathlib.Core.Path.{◌≡◌, refl, sym, ◌∙◌}
use mathlib.Core.Bool.{Bool, true, false, not, ◌&&◌}
use mathlib.Core.List.{List, [], ◌∷◌, map, Perm}
use native.Mathlib.Omega.{arith}
use astradns_operator.Base.Tests.{if◌then◌else◌, Bool-cases}
use astradns_operator.Base.Lists.{All, All-imp, All-zip}
use mathlib.Core.Logic.{inl, inr, ◌≢◌}

module _ {ℓ} {A : Type ℓ} where
  -- `x` goes before the first element that is not less than it.
  unfoldable pub insert_by : (A → A → Bool) → A → List A → List A
  insert_by less x [] = x ∷ []
  insert_by less x (y ∷ ys) = if less y x then y ∷ insert_by less x ys else x ∷ y ∷ ys

  unfoldable pub sort_stable : (A → A → Bool) → List A → List A
  unfolding insert_by
  sort_stable less [] = []
  sort_stable less (x ∷ xs) = insert_by less x (sort_stable less xs)

  -- The elements that pass a test, in order.
  unfoldable pub select : (A → Bool) → List A → List A
  select test [] = []
  select test (x ∷ xs) = if test x then x ∷ select test xs else select test xs

select-cons {ℓ} :
    {A : Type ℓ} (test : A → Bool) (x : A) (l m : List A)
    → select test l ≡ select test m
    → select test (x ∷ l) ≡ select test (x ∷ m)
unfolding select
select-cons test x l m e = ground arith

-- The comparisons that a sort may be given.
pub record IsWeakOrder {ℓ} {A : Type ℓ} (less : A → A → Bool) : Type ℓ where
  pub asym : (a b : A) → less a b ≡ true → less b a ≡ false
  pub negative_trans : (a b c : A) → less a b ≡ false → less b c ≡ false → less a c ≡ false

-- No element is less than one before it.
abbrev pub IsSortedBy {ℓ} : {A : Type ℓ} → (A → A → Bool) → List A → Type ℓ
IsSortedBy less [] = Unit
IsSortedBy less (x ∷ xs) = All (λ y. less y x ≡ false) xs × IsSortedBy less xs

-- Neither is less than the other.
abbrev pub same_rank {ℓ} : {A : Type ℓ} → (A → A → Bool) → A → A → Bool
same_rank less a b = not (less a b) && not (less b a)

module _ {ℓ} {A : Type ℓ} (less : A → A → Bool) where
  insert_by-perm : (x : A) (l : List A) → Perm (insert_by less x l) (x ∷ l)
  unfolding insert_by
  insert_by-perm x [] = Perm.refl (x ∷ [])
  insert_by-perm x (y ∷ ys) = elim (Bool-cases (less y x)) [
    | inl e ↦ rw e (Perm.trans (Perm.cons y (insert_by-perm x ys)) (Perm.swap x y ys))
    | inr e ↦ rw e (Perm.refl (x ∷ y ∷ ys))
  ]

  pub sort_stable-perm : (l : List A) → Perm (sort_stable less l) l
  unfolding sort_stable
  sort_stable-perm [] = Perm.refl []
  sort_stable-perm (x ∷ xs) =
      Perm.trans (insert_by-perm x (sort_stable less xs)) (Perm.cons x (sort_stable-perm xs))

  pub All-insert_by {κ} :
      (P : A → Type κ) (x : A) (l : List A) → P x → All P l → All P (insert_by less x l)
  unfolding insert_by
  All-insert_by P x [] h hs = (h, tt)
  All-insert_by P x (y ∷ ys) h (k, ks) = elim (Bool-cases (less y x)) [
    | inl e ↦ rw e (k, All-insert_by P x ys h ks)
    | inr e ↦ rw e (h, (k, ks))
  ]

  -- What holds of every element holds of every element of the sorted list.
  pub All-sort_stable {κ} : (P : A → Type κ) (l : List A) → All P l → All P (sort_stable less l)
  unfolding sort_stable
  All-sort_stable P [] h = tt
  All-sort_stable P (x ∷ xs) (h, hs) =
      All-insert_by P x (sort_stable less xs) h (All-sort_stable P xs hs)

  All-insert_by_inv {κ} :
      (P : A → Type κ) (x : A) (l : List A) → All P (insert_by less x l) → P x × All P l
  unfolding insert_by
  All-insert_by_inv P x [] h = h
  All-insert_by_inv P x (y ∷ ys) h = elim (Bool-cases (less y x)) [
    | inl e ↦
        let (first, rest) = rw e at h in
        let (here, others) = All-insert_by_inv P x ys rest in (here, (first, others))
    | inr e ↦ rw e at h
  ]

  -- What holds of every element of the sorted list holds of every element.
  pub All-of_sort_stable {κ} : (P : A → Type κ) (l : List A) → All P (sort_stable less l) → All P l
  unfolding sort_stable
  All-of_sort_stable P [] h = tt
  All-of_sort_stable P (x ∷ xs) h =
      let (here, rest) = All-insert_by_inv P x (sort_stable less xs) h in
      (here, All-of_sort_stable P xs rest)

  All-unit : (l : List A) → All (λ _. Unit {0}) l
  All-unit [] = tt
  All-unit (x ∷ xs) = (tt, All-unit xs)

  -- The comparison need be an order on the elements only.
  module _ {κ} (P : A → Type κ) (asym : (a b : A) → P a → P b → less a b ≡ true → less b a ≡ false)
      (negative_trans : (a b c : A)
        → P a
        → P b
        → P c
        → less a b ≡ false
        → less b c ≡ false
        → less a c ≡ false) where
    insert_by-IsSortedBy :
        (x : A) (l : List A)
        → P x
        → All P l
        → IsSortedBy less l
        → IsSortedBy less (insert_by less x l)
    unfolding insert_by
    insert_by-IsSortedBy x [] px pl h = (tt, tt)
    insert_by-IsSortedBy x (y ∷ ys) px (py, pys) (h, hs) = elim (Bool-cases (less y x)) [
      | inl e ↦
          rw e (All-insert_by _ x ys (asym y x py px e) h, insert_by-IsSortedBy x ys px pys hs)
      | inr e ↦ rw e (
        (
          e,
          All-imp ys (λ z (w : P z × (less z y ≡ false)). negative_trans z y x w.0 py px w.1 e)
              (All-zip P _ ys pys h),
        ),
        (h, hs),
      )
    ]

    pub sort_stable-IsSortedBy_on : (l : List A) → All P l → IsSortedBy less (sort_stable less l)
    unfolding sort_stable
    sort_stable-IsSortedBy_on [] pl = tt
    sort_stable-IsSortedBy_on (x ∷ xs) (px, pxs) =
        insert_by-IsSortedBy x (sort_stable less xs) px (All-sort_stable P xs pxs)
          (sort_stable-IsSortedBy_on xs pxs)

  module _ (order : IsWeakOrder less) where
    pub sort_stable-IsSortedBy : (l : List A) → IsSortedBy less (sort_stable less l)
    sort_stable-IsSortedBy l =
        sort_stable-IsSortedBy_on (λ _. Unit {0}) (λ a b _ _. order.asym a b)
          (λ a b c _ _ _. order.negative_trans a b c) l (All-unit l)

    -- `a` and `x` of one rank, `y` below `x`: `y` is of another rank.
    other_rank :
        (a x y : A) → same_rank less a x ≡ true → less y x ≡ true → same_rank less a y ≡ false
    other_rank a x y h e = ground (arith, order.negative_trans y a x)

    select-insert_by :
        (a x : A) (l : List A)
        → select (same_rank less a) (insert_by less x l) ≡ select (same_rank less a) (x ∷ l)
    unfolding insert_by select
    select-insert_by a x [] = refl
    select-insert_by a x (y ∷ ys) = ground (arith, select-insert_by a x ys, other_rank a x y)

    -- The elements of one rank keep their order.
    pub select-sort_stable :
        (a : A) (l : List A)
        → select (same_rank less a) (sort_stable less l) ≡ select (same_rank less a) l
    unfolding sort_stable
    select-sort_stable a [] = refl
    select-sort_stable a (x ∷ xs) =
        select-insert_by a x (sort_stable less xs)
        ∙ select-cons (same_rank less a) x (sort_stable less xs) xs (select-sort_stable a xs)

-- A conversion that keeps the comparison keeps sorted lists and ranks.
module _ {ℓ κ} {A : Type ℓ} {B : Type κ} (less : A → A → Bool) (less' : B → B → Bool) (f : A → B)
    (same : (a b : A) → less a b ≡ less' (f a) (f b)) where
  All-map-less :
      (a : A) (l : List A)
      → All (λ y. less y a ≡ false) l
      → All (λ y. less' y (f a) ≡ false) (map f l)
  All-map-less a [] h = tt
  All-map-less a (x ∷ xs) (h, hs) = (sym (same x a) ∙ h, All-map-less a xs hs)

  pub IsSortedBy-map : (l : List A) → IsSortedBy less l → IsSortedBy less' (map f l)
  IsSortedBy-map [] h = tt
  IsSortedBy-map (x ∷ xs) (h, hs) = (All-map-less x xs h, IsSortedBy-map xs hs)

  pub select-map-of :
      (a : A) (l : List A)
      → select (same_rank less' (f a)) (map f l) ≡ map f (select (same_rank less a) l)
  unfolding select
  select-map-of a [] = refl
  select-map-of a (x ∷ xs) = ground (arith, same a x, same x a, select-map-of a xs)

insert_by-ne-nil {ℓ} :
    {A : Type ℓ} (less : A → A → Bool) (x : A) (l : List A) → insert_by less x l ≢ []
unfolding insert_by
insert_by-ne-nil less x [] = cc
insert_by-ne-nil less x (y ∷ ys) = ground arith

pub sort_stable-ne-nil {ℓ} :
    {A : Type ℓ} (less : A → A → Bool) (l : List A) → l ≢ [] → sort_stable less l ≢ []
unfolding sort_stable
sort_stable-ne-nil less [] h = absurd (h refl)
sort_stable-ne-nil less (x ∷ xs) h = insert_by-ne-nil less x (sort_stable less xs)
