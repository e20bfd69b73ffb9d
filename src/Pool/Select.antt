-- ===== src/Pool/Select.antt =====
-- Which pool of a namespace is active: `sortPoolsForSelection` and `selectActivePoolName`.
pub mod Order
pub mod Cycle
use mathlib.Core.List.{Perm}
use astradns_operator.Base.{
  ℕ, ℤ, pos, String, Bool, true, false, not, ◌&&◌, ◌==◌, Option, none, some, List, [], ◌∷◌, eqb,
  ltb, eqb_ℤ, ltb_ℤ, length, ◌≡◌, All, if◌then◌else◌,
}
use astradns_operator.Dict.{Dict, get}
use astradns_operator.Base.Sort.{IsSortedBy}
use astradns_operator.Text.{text_less, parse_int64}
use astradns_operator.Api.{Pool}

abbrev pub initial_rv_annotation : String
initial_rv_annotation = "dns.astradns.com/initial-resource-version"

abbrev or_zero : Option ℤ → ℤ
or_zero none = pos 0
or_zero (some v) = v

abbrev or_blank : Option String → String
or_blank none = ""
or_blank (some s) = s

-- `initialRV`
unfoldable pub initial_rv : Pool → ℤ
unfolding get
initial_rv pool = elim pool.annotations [
  | none ↦ pos 0
  | some annotations ↦ or_zero (parse_int64 (or_blank (get annotations initial_rv_annotation)))
]

-- the first test: both creation times are set and differ
abbrev by_creation : Option ℕ → Option ℕ → Bool → Bool
by_creation (some left) (some right) later = if eqb left right then later else ltb left right
by_creation (some left) none later = later
by_creation none right later = later

-- the comparison of `sort.Slice`
unfoldable pub pool_less : Pool → Pool → Bool
pool_less a b =
    let left = initial_rv a in
    let right = initial_rv b in
    by_creation a.creation b.creation (
      if ltb_ℤ (pos 0) left && ltb_ℤ (pos 0) right && not (eqb_ℤ left right)
      then ltb_ℤ left right
      else text_less a.name b.name)

-- `sort.Slice`: a permutation, and sorted where the comparison is a strict weak order on the
-- elements. Nothing is promised of other comparisons, nor of the order of equal elements.
pub record PoolSort : Type 1 where
  pub sort : (Pool → Pool → Bool) → List Pool → List Pool
  pub sort-perm : (less : Pool → Pool → Bool) (l : List Pool) → Perm (sort less l) l
  pub sort-IsSortedBy :
      (P : Pool → Type 0) (less : Pool → Pool → Bool) (l : List Pool)
      → ((a b : Pool) → P a → P b → less a b ≡ true → less b a ≡ false)
      → ((a b c : Pool) → P a → P b → P c → less a b ≡ false → less b c ≡ false → less a c ≡ false)
      → All P l
      → IsSortedBy less (sort less l)

-- What `selectActivePoolName` returns beside its error.
pub record Selection : Type 0 where
  pub name : String
  pub count : ℕ
  pub reason : String

abbrev no_selection : Selection
no_selection = record { name = ""; count = 0; reason = "" }

abbrev first_selected : ℕ → List Pool → Selection
first_selected n [] = no_selection
first_selected n (pool ∷ pools) = record {
  name = pool.name;
  count = n;
  reason = if ltb 1 n then "oldest_pool" else "single_pool";
}

-- `selectActivePoolName` on the pools that the list call returned
unfoldable pub select_active : PoolSort → List Pool → Selection
select_active s [] = no_selection
select_active s (pool ∷ pools) =
    let items = s.sort pool_less (pool ∷ pools) in first_selected (length items) items
