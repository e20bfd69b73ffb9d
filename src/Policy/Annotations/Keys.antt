-- ===== src/Policy/Annotations/Keys.antt =====
-- The keys that the two methods write, and the guard on the owner.
use text.Mathlib.TextLemmas.{append-eq-nil_iff}
use astradns_operator.Base.{
  [], is_empty, ◌∷◌, String, Bool, true, false, ◌||◌, ◌==◌, none, some, ok, err, ◌≡◌, ◌≢◌, refl,
  eq_iff, arith, if◌then◌else◌, Option-cases, inl, inr,
}
use astradns_operator.Dict.{Dict, get}
use astradns_operator.Text.{trim_space}
use astradns_operator.Policy.{Policy, Namespace}
use astradns_operator.Policy.Annotations.{
  owner_uid_annotation, name_annotation, upstream_ref_annotation, cache_ref_annotation, read, Edit,
  set_entry, delete_entry, entries_of, full_name, policy_entries, check_owner, cleared_entries,
}
use astradns_operator.Policy.Annotations.Entries.{IsSettled, get-delete_entry, get-set_entry_other}

pub full_name_not_empty : (policy : Policy) → full_name policy ≢ ""
full_name_not_empty policy e = cc ((append-eq-nil_iff.0 ((append-eq-nil_iff.0 e).1)).0)

-- The keys that the two methods write.
abbrev pub is_managed : String → Bool
is_managed k =
    owner_uid_annotation == k
    || name_annotation == k
    || upstream_ref_annotation == k
    || cache_ref_annotation == k

pub get-cleared_entries :
    (m : Dict String) (k : String)
    → get (cleared_entries m).entries k ≡ (if is_managed k then none else get m k)
unfolding cleared_entries
get-cleared_entries m k =
    let start : Edit = record { changed = false; entries = m } in
    let disowned = delete_entry owner_uid_annotation start in
    let unnamed = delete_entry name_annotation disowned in
    let unpooled = delete_entry upstream_ref_annotation unnamed in
    ground (
      arith,
      get-delete_entry owner_uid_annotation k start,
      get-delete_entry name_annotation k disowned,
      get-delete_entry upstream_ref_annotation k unnamed,
      get-delete_entry cache_ref_annotation k unpooled,
    )

pub get-policy_entries_foreign :
    (policy : Policy) (m : Dict String) (k : String)
    → is_managed k ≡ false
    → get (policy_entries policy m).entries k ≡ get m k
unfolding policy_entries
get-policy_entries_foreign policy m k h =
    let start : Edit = record { changed = false; entries = m } in
    let owned = set_entry owner_uid_annotation policy.uid start in
    let named = set_entry name_annotation (full_name policy) owned in
    let pooled = set_entry upstream_ref_annotation policy.upstream_pool_ref named in
    let trimmed = trim_space policy.cache_profile_ref in
    ground (
      arith,
      get-set_entry_other owner_uid_annotation policy.uid k start,
      get-set_entry_other name_annotation (full_name policy) k owned,
      get-set_entry_other upstream_ref_annotation policy.upstream_pool_ref k named,
      get-set_entry_other cache_ref_annotation trimmed k pooled,
      get-delete_entry cache_ref_annotation k pooled,
    )

pub cleared_entries_changed :
    (m : Dict String) → read m owner_uid_annotation ≢ "" → (cleared_entries m).changed ≡ true
unfolding cleared_entries delete_entry read
cleared_entries_changed m h = elim (Option-cases (get m owner_uid_annotation)) [
  | inl absent ↦ absurd (ground (arith, absent))
  | inr (v, present) ↦ ground (arith, present)
]

-- A namespace whose owner's key reads as the policy's UID lets the policy pass.
pub check_owner_settled :
    (policy : Policy) (namespace : Namespace)
    → read (entries_of namespace) owner_uid_annotation ≡ policy.uid
    → check_owner policy namespace ≡ ok tt
unfolding check_owner
check_owner_settled policy namespace h =
    let owner = read (entries_of namespace) owner_uid_annotation in
    ground (arith, h, eq_iff owner policy.uid)

pub check_owner_other :
    (policy other : Policy) (name : String) (m : Dict String)
    → policy.uid ≢ ""
    → policy.uid ≢ other.uid
    → IsSettled policy m
    → check_owner other (record { name = name; annotations = some m })
      ≡ err (record { namespace = name; policy = full_name policy })
unfolding check_owner
check_owner_other policy other name m blank different h = ground (
  arith,
  h.owner,
  h.named,
  eq_iff policy.uid "",
  eq_iff policy.uid other.uid,
  eq_iff (full_name policy) "",
  full_name_not_empty policy,
)

-- A map without the owner's key lets every policy pass.
read_of_absent : (m : Dict String) (k : String) → get m k ≡ none → read m k ≡ ""
unfolding read
read_of_absent m k h = ground (arith, h)

pub check_owner_free :
    (policy : Policy) (namespace : Namespace)
    → get (entries_of namespace) owner_uid_annotation ≡ none
    → check_owner policy namespace ≡ ok tt
unfolding check_owner
check_owner_free policy namespace h =
    rw (read_of_absent (entries_of namespace) owner_uid_annotation h) refl

pub policy_entries_unchanged :
    (policy : Policy) (m : Dict String)
    → (policy_entries policy m).changed ≡ false
    → (policy_entries policy m).entries ≡ m
unfolding policy_entries set_entry delete_entry
policy_entries_unchanged policy m h = ground arith

pub kept_entries :
    (m : Dict String) (name : String)
    → entries_of (record { name = name; annotations = if is_empty m then none else some m }) ≡ m
kept_entries [] name = refl
kept_entries (x ∷ m) name = refl

pub cleared_entries_unchanged :
    (m : Dict String) → (cleared_entries m).changed ≡ false → (cleared_entries m).entries ≡ m
unfolding cleared_entries delete_entry
cleared_entries_unchanged m h = ground arith
