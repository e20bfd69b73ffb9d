-- ===== src/Policy/Annotations/Wanted.antt =====
-- The entries that a policy wants, with those that are missing.
use astradns_operator.Base.{
  String, false, ◌==◌, Option, none, some, ◌≡◌, eq_iff, arith, refl, if◌then◌else◌, Bool-cases, ap,
  ◌∙◌, inl, inr,
}
use astradns_operator.Text.{trim_space}
use astradns_operator.Dict.{Dict, get, get-put}
use astradns_operator.Policy.{Policy}
use astradns_operator.Policy.Annotations.{
  owner_uid_annotation, name_annotation, upstream_ref_annotation, cache_ref_annotation, read, Edit,
  set_entry, full_name, policy_entries,
}
use astradns_operator.Policy.Annotations.Entries.{wanted, pooled_entries, get-delete_entry}

-- The entry that has `value` as its text, where a missing entry has the blank one.
abbrev pub entry_of : String → Option String → Option String
entry_of value none = if value == "" then none else some value
entry_of value (some _) = some value

entry_of_given :
    (value : String) (old : Option String) → (value == "") ≡ false → entry_of value old ≡ some value
entry_of_given value none given = rw given refl
entry_of_given value (some v) given = refl

-- What a policy wants under a key that had the entry `old`.
abbrev pub wanted_entry : Policy → String → Option String → Option String
wanted_entry policy k old =
    if cache_ref_annotation == k
    then (if trim_space policy.cache_profile_ref == ""
        then none
        else some (trim_space policy.cache_profile_ref))
    else if upstream_ref_annotation == k
    then entry_of policy.upstream_pool_ref old
    else if name_annotation == k
    then entry_of (full_name policy) old
    else if owner_uid_annotation == k
    then entry_of policy.uid old
    else old

get-set_entry :
    (key value k : String) (e : Edit)
    → get (set_entry key value e).entries k
      ≡ (if key == k then entry_of value (get e.entries k) else get e.entries k)
unfolding set_entry read
get-set_entry key value k e = ground (
  arith,
  get-put e.entries key k value,
  eq_iff key k,
  eq_iff value "",
  eq_iff (read e.entries key) value,
)

-- The entries before the last step.
pooled_entry : Policy → String → Option String → Option String
pooled_entry policy k old =
    if upstream_ref_annotation == k
    then entry_of policy.upstream_pool_ref old
    else if name_annotation == k
    then entry_of (full_name policy) old
    else if owner_uid_annotation == k
    then entry_of policy.uid old
    else old

get-pooled_entries :
    (policy : Policy) (m : Dict String) (k : String)
    → get (pooled_entries policy m).entries k ≡ pooled_entry policy k (get m k)
unfolding pooled_entry
get-pooled_entries policy m k =
    let start : Edit = record { changed = false; entries = m } in
    let owned = set_entry owner_uid_annotation policy.uid start in
    let named = set_entry name_annotation (full_name policy) owned in
    rw
      (
        get-set_entry upstream_ref_annotation policy.upstream_pool_ref k named,
        get-set_entry name_annotation (full_name policy) k owned,
        get-set_entry owner_uid_annotation policy.uid k start,
      )
      (ground (
        arith,
        eq_iff owner_uid_annotation k,
        eq_iff name_annotation k,
        eq_iff upstream_ref_annotation k,
        eq_iff owner_uid_annotation name_annotation,
        eq_iff owner_uid_annotation upstream_ref_annotation,
        eq_iff name_annotation upstream_ref_annotation,
      ))

pub get-policy_entries :
    (policy : Policy) (m : Dict String) (k : String)
    → get (policy_entries policy m).entries k ≡ wanted_entry policy k (get m k)
unfolding policy_entries pooled_entry
get-policy_entries policy m k =
    let pooled = pooled_entries policy m in
    let trimmed = trim_space policy.cache_profile_ref in
    elim (Bool-cases (trimmed == "")) [
      | inl blank ↦ rw blank (
          get-delete_entry cache_ref_annotation k pooled
          ∙ ap (λ x. if cache_ref_annotation == k then none else x) (get-pooled_entries policy m k))
      | inr given ↦ rw given (
          get-set_entry cache_ref_annotation trimmed k pooled
          ∙ ap (λ x. if cache_ref_annotation == k then entry_of trimmed x else x)
              (get-pooled_entries policy m k)
          ∙ ap (λ x. if cache_ref_annotation == k then x else pooled_entry policy k (get m k))
              (entry_of_given trimmed (pooled_entry policy k (get m k)) given))
    ]

-- So it reads as the policy wants it.
pub read_of_wanted_entry :
    (policy : Policy) (m d : Dict String) (k : String)
    → get m k ≡ wanted_entry policy k (get d k)
    → read m k ≡ wanted policy k (read d k)
unfolding read
read_of_wanted_entry policy m d k h = ground (
  arith,
  h,
  eq_iff (trim_space policy.cache_profile_ref) "",
  eq_iff policy.upstream_pool_ref "",
  eq_iff (full_name policy) "",
  eq_iff policy.uid "",
)
