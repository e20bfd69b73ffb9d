-- ===== src/Policy/Annotations.antt =====
-- `updateNamespacePolicyAnnotations` and `removeNamespacePolicyAnnotations`.
pub mod Entries
pub mod Wanted
pub mod Keys
pub mod Ownership
use astradns_operator.Base.{
  String, Bool, true, false, not, ◌&&◌, ◌==◌, Option, none, some, List, [], ◌∷◌, is_empty, Result,
  ok, err, map_err, if◌then◌else◌,
}
use Prim.Native.String.{◌++◌}
use astradns_operator.Text.{trim_space}
use astradns_operator.Dict.{Dict, get, put, remove}
use astradns_operator.Policy.{Policy, Namespace}

abbrev pub owner_uid_annotation : String
owner_uid_annotation = "dns.astradns.com/external-policy-owner-uid"

abbrev pub name_annotation : String
name_annotation = "dns.astradns.com/external-policy-name"

abbrev pub upstream_ref_annotation : String
upstream_ref_annotation = "dns.astradns.com/external-policy-upstream-pool"

abbrev pub cache_ref_annotation : String
cache_ref_annotation = "dns.astradns.com/external-policy-cache-profile"

-- `m[key]`, where a missing key reads as the blank text
unfoldable pub read : Dict String → String → String
read m key = elim (get m key) [ none ↦ "" | some value ↦ value ]

-- The map that a method edits, with its flag `changed`.
pub record Edit : Type 0 where
  pub changed : Bool
  pub entries : Dict String

-- `if m[key] != value { m[key] = value; changed = true }`
unfoldable pub set_entry : String → String → Edit → Edit
unfolding read
set_entry key value e =
    if read e.entries key == value
    then e
    else record { changed = true; entries = put e.entries key value }

-- `if _, exists := m[key]; exists { delete(m, key); changed = true }`
unfoldable pub delete_entry : String → Edit → Edit
delete_entry key e = elim (get e.entries key) [
  | none ↦ e
  | some _ ↦ record { changed = true; entries = remove e.entries key }
]

-- `namespace.Annotations`, made if it is nil
abbrev pub entries_of : Namespace → Dict String
entries_of namespace = elim namespace.annotations [ none ↦ [] | some entries ↦ entries ]

-- `fmt.Sprintf("%s/%s", policy.Namespace, policy.Name)`
abbrev pub full_name : Policy → String
full_name policy = policy.namespace ++ ("/" ++ policy.name)

-- The entries that an unowned or own namespace gets.
unfoldable pub policy_entries : Policy → Dict String → Edit
unfolding set_entry delete_entry
policy_entries policy m =
    let trimmed = trim_space policy.cache_profile_ref in
    let owned =
      set_entry owner_uid_annotation policy.uid (record { changed = false; entries = m }) in
    let named = set_entry name_annotation (full_name policy) owned in
    let pooled = set_entry upstream_ref_annotation policy.upstream_pool_ref named in
    if trimmed == ""
    then delete_entry cache_ref_annotation pooled
    else set_entry cache_ref_annotation trimmed pooled

-- `errNamespacePolicyConflict`, with the namespace and the policy that its text names.
pub record Conflict : Type 0 where
  pub namespace : String
  pub policy : String

-- The guard on the owner.
unfoldable pub check_owner : Policy → Namespace → Result Conflict (Unit {0})
unfolding read
check_owner policy namespace =
    let existing_uid = read (entries_of namespace) owner_uid_annotation in
    let existing_policy = read (entries_of namespace) name_annotation in
    if not (existing_uid == "") && not (existing_uid == policy.uid)
    then err (record {
      namespace = namespace.name;
      policy = if existing_policy == "" then existing_uid else existing_policy;
    })
    else ok tt

-- The entries of a policy, taken off.
unfoldable pub cleared_entries : Dict String → Edit
unfolding delete_entry
cleared_entries m = delete_entry cache_ref_annotation (
    delete_entry upstream_ref_annotation (
      delete_entry name_annotation
        (delete_entry owner_uid_annotation (record { changed = false; entries = m }))))

pub data UpdateError {ℓ} (E : Type ℓ) : Type ℓ where
  conflict : Conflict → UpdateError E
  patch_failed : E → UpdateError E

module _ {ℓ κ} {E : Type ℓ} {W : Type κ} (patch : Namespace → W → Result E (Unit {0}) × W) where
  -- the patch of the two methods, which is skipped where nothing changed
  unfoldable pub patch_changed : Bool → Namespace → W → Result (UpdateError E) (Unit {0}) × W
  patch_changed changed namespace w =
      if changed
      then (let (r, w') = patch namespace w in (map_err patch_failed r, w'))
      else (ok tt, w)

  -- `updateNamespacePolicyAnnotations`
  unfoldable pub update_annotations : Policy → Namespace → W → Result (UpdateError E) (Unit {0}) × W
  unfolding check_owner policy_entries patch_changed
  update_annotations policy namespace w = elim (check_owner policy namespace) [
    | err e ↦ (err (conflict e), w)
    | ok _ ↦
        let e = policy_entries policy (entries_of namespace) in
        patch_changed e.changed (record namespace { annotations = some e.entries }) w
  ]

  -- `removeNamespacePolicyAnnotations`
  unfoldable pub remove_annotations : Namespace → W → Result (UpdateError E) (Unit {0}) × W
  unfolding cleared_entries patch_changed
  remove_annotations namespace w = elim namespace.annotations [
    | none ↦ (ok tt, w)
    | some m ↦
        let e = cleared_entries m in
        let kept = if is_empty e.entries then none else some e.entries in
        patch_changed e.changed (record namespace { annotations = kept }) w
  ]
