-- ===== src/Policy/Annotations/Ownership.antt =====
-- Who owns a namespace after the two methods.
use astradns_operator.Base.{
  [], is_empty, sym, ◌∙◌, String, true, none, some, Result, ok, err, map_err, ◌≡◌, ◌≢◌, refl, arith,
  if◌then◌else◌, Option-cases, Bool-cases, inl, inr, ap, ◌⊎◌,
}
use astradns_operator.Dict.{Dict, get}
use astradns_operator.Policy.{Policy, Namespace}
use astradns_operator.Policy.Annotations.{
  owner_uid_annotation, read, entries_of, full_name, policy_entries, check_owner, cleared_entries,
  Conflict, conflict, patch_failed, UpdateError, patch_changed, update_annotations,
  remove_annotations,
}
use astradns_operator.Policy.Annotations.Keys.{
  is_managed, get-cleared_entries, get-policy_entries_foreign, cleared_entries_changed,
  check_owner_settled, check_owner_other, check_owner_free, policy_entries_unchanged,
  cleared_entries_unchanged, kept_entries,
}
use astradns_operator.Policy.Annotations.Entries.{
  IsSettled, policy_entries-IsSettled, policy_entries_of_IsSettled,
}
use astradns_operator.Policy.Annotations.Wanted.{wanted_entry, get-policy_entries}

module _ {E W : Type 0} (patch : Namespace → W → Result E (Unit {0}) × W) where
  -- The result of a patch, as the two methods return it.
  abbrev pub patched : Namespace → W → Result (UpdateError E) (Unit {0}) × W
  patched namespace w = (map_err patch_failed (patch namespace w).0, (patch namespace w).1)

  -- Where no other policy owns a namespace, the update patches it to settled entries, or writes nothing
  -- where they are there already.
  pub update_annotations-IsSettled :
      (policy : Policy) (namespace : Namespace) (w : W)
      → check_owner policy namespace ≡ ok tt
      → let m = (policy_entries policy (entries_of namespace)).entries in
        IsSettled policy m
        × ((update_annotations patch policy namespace w
              ≡ patched (record namespace { annotations = some m }) w)
            ⊎ ((m ≡ entries_of namespace)
                × (update_annotations patch policy namespace w ≡ (ok tt, w))))
  unfolding update_annotations patch_changed
  update_annotations-IsSettled policy namespace w passed =
      let entries = entries_of namespace in
      (
        policy_entries-IsSettled policy entries,
        elim (Bool-cases (policy_entries policy entries).changed) [
          | inl changed ↦ inl (ground (arith, passed, changed))
          | inr unchanged ↦
              inr (
                policy_entries_unchanged policy entries unchanged,
                ground (arith, passed, unchanged),
              )
        ],
      )

  -- Entries that are settled are written by no update.
  pub update_annotations-rests :
      (policy : Policy) (namespace : Namespace) (w : W)
      → IsSettled policy (entries_of namespace)
      → update_annotations patch policy namespace w ≡ (ok tt, w)
  unfolding update_annotations patch_changed
  update_annotations-rests policy namespace w settled = ground (
    arith,
    check_owner_settled policy namespace settled.owner,
    policy_entries_of_IsSettled policy (entries_of namespace) settled,
  )

  -- Where no other policy owns a namespace, the update leaves the entries that the policy wants,
  -- and every other key as it was: it patches the namespace to them, or writes nothing where they
  -- are there already, and a second update writes nothing.
  pub update_annotations-settles :
      (policy : Policy) (namespace : Namespace) (w : W)
      → check_owner policy namespace ≡ ok tt
      → (m : Dict String) × ((k : String)
          → get m k ≡ wanted_entry policy k (get (entries_of namespace) k))
        × ((update_annotations patch policy namespace w
              ≡ patched (record namespace { annotations = some m }) w)
            ⊎ ((m ≡ entries_of namespace)
                × (update_annotations patch policy namespace w ≡ (ok tt, w))))
        × (update_annotations patch policy (record namespace { annotations = some m }) w
            ≡ (ok tt, w))
  update_annotations-settles policy namespace w passed =
      let m = (policy_entries policy (entries_of namespace)).entries in
      let (settled, did) = update_annotations-IsSettled policy namespace w passed in
      (
        m,
        get-policy_entries policy (entries_of namespace),
        did,
        update_annotations-rests policy (record namespace { annotations = some m }) w settled,
      )

  -- Once a policy with a UID has marked a namespace, a policy with another UID is refused with the
  -- marking policy's name, and nothing is written.
  pub update_annotations-excludes :
      (policy other : Policy) (namespace : Namespace) (w : W)
      → policy.uid ≢ ""
      → policy.uid ≢ other.uid
      → let m = (policy_entries policy (entries_of namespace)).entries in
        update_annotations patch other (record namespace { annotations = some m }) w
        ≡ (err (conflict (record { namespace = namespace.name; policy = full_name policy })), w)
  unfolding update_annotations patch_changed
  update_annotations-excludes policy other namespace w blank different =
      let entries = entries_of namespace in
      ground (
        arith,
        check_owner_other policy other namespace.name (policy_entries policy entries).entries blank
            different (policy_entries-IsSettled policy entries),
      )

  -- Taking the annotations of a policy with a UID off a namespace patches it to one without the four
  -- keys, every other key as it was before the policy came, and any policy may mark it next.
  pub remove_annotations-releases :
      (policy : Policy) (namespace : Namespace) (w : W)
      → policy.uid ≢ ""
      → (released : Namespace) × (let m = (policy_entries policy (entries_of namespace)).entries in
          remove_annotations patch (record namespace { annotations = some m }) w
          ≡ patched released w)
        × ((k : String)
            → get (entries_of released) k
              ≡ (if is_managed k then none else get (entries_of namespace) k))
        × ((other : Policy) → check_owner other released ≡ ok tt)
  unfolding remove_annotations
  remove_annotations-releases policy namespace w blank =
      let entries = entries_of namespace in
      let m = (policy_entries policy entries).entries in
      let e = cleared_entries m in
      let released : Namespace = record namespace {
        annotations = if is_empty e.entries then none else some e.entries;
      } in
      let same : entries_of released ≡ e.entries = kept_entries e.entries namespace.name in
      let owner : read m owner_uid_annotation ≡ policy.uid =
        (policy_entries-IsSettled policy entries).owner in
      let changed : e.changed ≡ true = cleared_entries_changed m (λ b. blank (sym owner ∙ b)) in
      (
        released,
        rw changed refl,
        λ k.
            rw same (
              ground (arith, get-cleared_entries m k, get-policy_entries_foreign policy entries k)),
        λ other. check_owner_free other released (
            ap (λ d. get d owner_uid_annotation) same ∙ get-cleared_entries m owner_uid_annotation),
      )

  -- What the removal does: nothing where no key is there, else one patch.
  pub remove_annotations-cases :
      (namespace : Namespace) (w : W)
      → (cleared : Namespace) × (cleared.name ≡ namespace.name)
        × ((k : String)
            → get (entries_of cleared) k
              ≡ (if is_managed k then none else get (entries_of namespace) k))
        × (((remove_annotations patch namespace w ≡ (ok tt, w))
              × (entries_of cleared ≡ entries_of namespace))
            ⊎ (remove_annotations patch namespace w ≡ patched cleared w))
  unfolding remove_annotations patch_changed get
  remove_annotations-cases namespace w = elim (Option-cases namespace.annotations) [
    | inl unset ↦
        let nil : entries_of namespace ≡ [] = ground (arith, unset) in
        (
          record { name = namespace.name; annotations = none },
          refl,
          λ k. rw nil (ground arith),
          inl (ground (arith, unset), sym nil),
        )
    | inr (m, set) ↦
        let e = cleared_entries m in
        let same : entries_of namespace ≡ m = ground (arith, set) in
        let cleared : Namespace = record {
          name = namespace.name;
          annotations = if is_empty e.entries then none else some e.entries;
        } in
        let kept : entries_of cleared ≡ e.entries = kept_entries e.entries namespace.name in
        (
          cleared,
          refl,
          λ k. rw (kept, same) (get-cleared_entries m k),
          elim (Bool-cases e.changed) [
            | inl changed ↦ inr (ground (arith, set, changed))
            | inr unchanged ↦ inl (
              ground (arith, set, unchanged),
              kept ∙ cleared_entries_unchanged m unchanged ∙ sym same,
            )
          ],
        )
  ]

  -- A conflict writes nothing.
  pub update_annotations-refused :
      (policy : Policy) (namespace : Namespace) (w : W) (c : Conflict)
      → check_owner policy namespace ≡ err c
      → update_annotations patch policy namespace w ≡ (err (conflict c), w)
  unfolding update_annotations
  update_annotations-refused policy namespace w c refused = ground (arith, refused)
