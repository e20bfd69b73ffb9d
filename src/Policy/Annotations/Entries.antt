-- ===== src/Policy/Annotations/Entries.antt =====
-- What the entries of a policy read as, and that setting them again changes nothing.
use astradns_operator.Base.{
  String, false, ◌==◌, none, ◌≡◌, eq_iff, eq_refl, arith, if◌then◌else◌, Option-cases, inl, inr,
}
use astradns_operator.Text.{trim_space}
use astradns_operator.Dict.{Dict, get, get-remove, get-put}
use astradns_operator.Policy.{Policy}
use astradns_operator.Policy.Annotations.{
  owner_uid_annotation, name_annotation, upstream_ref_annotation, cache_ref_annotation, read, Edit,
  set_entry, delete_entry, full_name, policy_entries,
}

read-set_entry :
    (key value k : String) (e : Edit)
    → read (set_entry key value e).entries k ≡ (if key == k then value else read e.entries k)
unfolding set_entry read
read-set_entry key value k e =
    ground (arith, get-put e.entries key k value, eq_iff key k, eq_iff (read e.entries key) value)

read-delete_entry :
    (key k : String) (e : Edit)
    → read (delete_entry key e).entries k ≡ (if key == k then "" else read e.entries k)
unfolding delete_entry read
read-delete_entry key k e = elim (Option-cases (get e.entries key)) [
  | inl absent ↦ ground (arith, absent, eq_iff key k)
  | inr (v, present) ↦ ground (arith, present, get-remove e.entries key k)
]

pub get-delete_entry :
    (key k : String) (e : Edit)
    → get (delete_entry key e).entries k ≡ (if key == k then none else get e.entries k)
unfolding delete_entry
get-delete_entry key k e = elim (Option-cases (get e.entries key)) [
  | inl absent ↦ ground (arith, absent, eq_iff key k)
  | inr (v, present) ↦ ground (arith, present, get-remove e.entries key k)
]

pub get-set_entry_other :
    (key value k : String) (e : Edit)
    → (key == k) ≡ false
    → get (set_entry key value e).entries k ≡ get e.entries k
unfolding set_entry
get-set_entry_other key value k e h = ground (arith, h, get-put e.entries key k value)

set_entry_same :
    (key value : String) (e : Edit) → read e.entries key ≡ value → set_entry key value e ≡ e
unfolding set_entry
set_entry_same key value e h = ground (arith, eq_iff (read e.entries key) value)

delete_entry_same : (key : String) (e : Edit) → get e.entries key ≡ none → delete_entry key e ≡ e
unfolding delete_entry
delete_entry_same key e h = ground (arith, h)

-- What a policy wants to be read under a key that read `old`.
abbrev pub wanted : Policy → String → String → String
wanted policy k old =
    if cache_ref_annotation == k
    then trim_space policy.cache_profile_ref
    else if upstream_ref_annotation == k
    then policy.upstream_pool_ref
    else if name_annotation == k
    then full_name policy
    else if owner_uid_annotation == k
    then policy.uid
    else old

-- The edit before its last step.
abbrev pub pooled_entries : Policy → Dict String → Edit
pooled_entries policy m = set_entry upstream_ref_annotation policy.upstream_pool_ref (
    set_entry name_annotation (full_name policy)
      (set_entry owner_uid_annotation policy.uid (record { changed = false; entries = m })))

pub read-policy_entries :
    (policy : Policy) (m : Dict String) (k : String)
    → read (policy_entries policy m).entries k ≡ wanted policy k (read m k)
unfolding policy_entries
read-policy_entries policy m k =
    let owned =
      set_entry owner_uid_annotation policy.uid (record { changed = false; entries = m }) in
    let named = set_entry name_annotation (full_name policy) owned in
    let pooled = set_entry upstream_ref_annotation policy.upstream_pool_ref named in
    let trimmed = trim_space policy.cache_profile_ref in
    ground (
      arith,
      read-set_entry owner_uid_annotation policy.uid k (record { changed = false; entries = m }),
      read-set_entry name_annotation (full_name policy) k owned,
      read-set_entry upstream_ref_annotation policy.upstream_pool_ref k named,
      read-set_entry cache_ref_annotation trimmed k pooled,
      read-delete_entry cache_ref_annotation k pooled,
      eq_iff trimmed "",
      eq_iff owner_uid_annotation k,
      eq_iff name_annotation k,
      eq_iff upstream_ref_annotation k,
      eq_iff cache_ref_annotation k,
    )

policy_entries_uncached :
    (policy : Policy) (m : Dict String)
    → trim_space policy.cache_profile_ref ≡ ""
    → get (policy_entries policy m).entries cache_ref_annotation ≡ none
unfolding policy_entries
policy_entries_uncached policy m h = ground (
  arith,
  eq_iff (trim_space policy.cache_profile_ref) "",
  eq_refl cache_ref_annotation,
  get-delete_entry cache_ref_annotation cache_ref_annotation (pooled_entries policy m),
)

-- The entries of a policy are as it wants them.
pub record IsSettled (policy : Policy) (m : Dict String) : Type 0 where
  pub owner : read m owner_uid_annotation ≡ policy.uid
  pub named : read m name_annotation ≡ full_name policy
  pub pooled : read m upstream_ref_annotation ≡ policy.upstream_pool_ref
  pub cached : read m cache_ref_annotation ≡ trim_space policy.cache_profile_ref
  pub uncached : trim_space policy.cache_profile_ref ≡ "" → get m cache_ref_annotation ≡ none

pub policy_entries-IsSettled :
    (policy : Policy) (m : Dict String) → IsSettled policy (policy_entries policy m).entries
policy_entries-IsSettled policy m = record {
  owner = read-policy_entries policy m owner_uid_annotation;
  named = read-policy_entries policy m name_annotation;
  pooled = read-policy_entries policy m upstream_ref_annotation;
  cached = read-policy_entries policy m cache_ref_annotation;
  uncached = policy_entries_uncached policy m;
}

pub policy_entries_of_IsSettled :
    (policy : Policy) (m : Dict String)
    → IsSettled policy m
    → policy_entries policy m ≡ record { changed = false; entries = m }
unfolding policy_entries
policy_entries_of_IsSettled policy m h =
    let start : Edit = record { changed = false; entries = m } in
    let trimmed = trim_space policy.cache_profile_ref in
    rw
      (
        set_entry_same owner_uid_annotation policy.uid start h.owner,
        set_entry_same name_annotation (full_name policy) start h.named,
        set_entry_same upstream_ref_annotation policy.upstream_pool_ref start h.pooled,
      )
      (ground (
        arith,
        eq_iff trimmed "",
        delete_entry_same cache_ref_annotation start,
        h.uncached,
        set_entry_same cache_ref_annotation trimmed start h.cached,
      ))
